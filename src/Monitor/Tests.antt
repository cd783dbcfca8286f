-- ===== src/Monitor/Tests.antt =====
-- Runs of the lookup, and the theorems about it at a list of one stream.
use ltntstools.Base.{ℕ, ◌≡◌, refl, Option, none, some, List, [], ◌∷◌, map}
use ltntstools.HashIndex.{compute_stream_hash, cal_hash, get_count, get_enum, add, store, entry}
use ltntstools.Item.{Headers, ntohl, ntohs, network_addr_compare, state_set, mask, position}
use ltntstools.Item.Samples.{second_headers}
use ltntstools.Monitor.{
  ToolContext, find_cached, find_linear, findcreate, search_cache, create, insert,
  discovered_item_alloc, automatic_flags, update_addr, find_addr, sort_key,
}
use ltntstools.Monitor.Samples.{
  one_stream, one_stream-IsValid, one_stream-IsConsistent, environment, environment-IsFresh,
  second_inside,
}
use ltntstools.Monitor.Findcreate.{Found, findcreate-Found}
use ltntstools.Monitor.Cached.{find_cached-linear}

-- The second stream of the same hash is not there, although the cache has an entry for its hash.
find_cached-linear_example :
    find_cached one_stream second_headers ≡ some (find_linear one_stream.list second_headers)
find_cached-linear_example =
    find_cached-linear one_stream second_headers one_stream-IsConsistent second_inside

findcreate-Found_example :
    (r : Option ℕ) × (ctx : ToolContext) × (findcreate environment one_stream second_headers
      ≡ some (r, ctx))
    × Found environment one_stream second_headers r ctx
findcreate-Found_example =
    findcreate-Found environment one_stream second_headers one_stream-IsValid environment-IsFresh
      second_inside

-- 10.15.255 with the low bits set, and port 15.
abbrev outside_headers : Headers
outside_headers = record { saddr = 1; daddr = 0xff0f0ae3; source = 0; dest = 0x0f00 }

-- The addresses and the state words of a result.
abbrev listed : Option (Option ℕ × ToolContext) → List (ℕ × ℕ)
listed none = []
listed (some (r, ctx)) = map (λ e. (e.addr, e.state)) ctx.list

-- The object that is created stands before the one with the same key, and both have the flag.
created_flags :
    listed (findcreate environment one_stream second_headers) ≡ (8192, 132) ∷ (4096, 128) ∷ []
unfolding findcreate find_cached search_cache create insert discovered_item_alloc automatic_flags
    update_addr find_addr sort_key compute_stream_hash cal_hash ntohl ntohs network_addr_compare
    state_set mask position get_count get_enum add store entry
created_flags = refl
