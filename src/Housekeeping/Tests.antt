-- ===== src/Housekeeping/Tests.antt =====
-- The housekeeping at two senders to one destination, and an object that is hidden and stale.
use ltntstools.Base.{
  ℕ, ◌≡◌, ◌⊎◌, refl, inl, inr, true, false, Option, none, some, List, [], ◌∷◌, map, arith, ◌==◌,
  if◌then◌else◌,
}
use ltntstools.HashIndex.{compute_stream_hash, cal_hash, contains, remove, entry, store}
use ltntstools.Item.{
  Flag, Headers, DiscoveredItem, is_set, state_get, state_set, state_clr, mask, position, ntohl,
  ntohs, network_addr_compare,
}
use ltntstools.Item.Samples.{sample, first_headers, second_headers}
use ltntstools.Monitor.{ToolContext, find_addr, update_addr, sort_key, is_di_dst_duplicate}
use ltntstools.Monitor.Store.{stream_of}
use ltntstools.Monitor.Consistency.{IsConsistent}
use ltntstools.Monitor.Findcreate.{IsValid}
use ltntstools.Housekeeping.{
  is_di_streaming, same_destination, conflict, stale_duplicate, mark_duplicate, count_if, settle,
  update_duplicate, addresses, update_duplicates, hide_stale, expired, purge, housekeeping,
}
use ltntstools.Housekeeping.Duplicates.{fixed, duplicated}
use ltntstools.Housekeeping.Consistent.{Kept, housekeeping-Kept, housekeeping-streaming}

abbrev third_headers : Headers
third_headers = record { saddr = 0x0300000a; daddr = 0x010000e3; source = 0x8813; dest = 0x8813 }

hashes :
    (compute_stream_hash first_headers ≡ 24)
    × (compute_stream_hash second_headers ≡ 24)
    × (compute_stream_hash third_headers ≡ 24)
unfolding compute_stream_hash cal_hash ntohl ntohs
hashes = (refl, refl, refl)

-- The first two are streaming at 1000, the third has the flags 7 and 9 and stopped at 500.
abbrev before : ToolContext
before = record {
  list =
      sample 4096 first_headers 24 0 998
      ∷ sample 8192 second_headers 24 0 999
      ∷ sample 12288 third_headers 24 640 500
      ∷ [];
  hash_index = record {
    slots = 65535;
    arr = λ k. if k == 24 then 4096 ∷ 8192 ∷ 12288 ∷ [] else [];
  };
  cache_hit = 0;
  cache_miss = 3;
  automatically_record_streams = false;
  automatically_json_probe_streams = false;
  last_list_housekeeping = 990;
}

pointers :
    (k a : ℕ)
    → contains (before.hash_index.arr k) a ≡ true
    → (24 ≡ k) × ((4096 ≡ a) ⊎ (8192 ≡ a) ⊎ (12288 ≡ a))
unfolding contains
pointers k a among = ground (arith, among)

before-IsConsistent : IsConsistent before.list before.hash_index
unfolding stream_of contains
before-IsConsistent = record {
  slots = refl;
  distinct = (refl, (refl, (refl, tt)));
  hashed = λ a s at. ground (arith, hashes, at);
  inside = λ a s at. ground (arith, at);
  indexed = λ a s at. ground (arith, at);
  not_null = λ a s at. ground (arith, at);
  not_dead = λ a s at. ground (arith, at);
  followed = λ k a among.
      let (key, which) = pointers k a among in
      elim which [
        | inl here ↦ inr ((first_headers, 24), ground (arith, here), key)
        | inr (inl here) ↦ inr ((second_headers, 24), ground (arith, here), key)
        | inr (inr here) ↦ inr ((third_headers, 24), ground (arith, here), key)
      ];
  unique = λ a b s t at bt same. ground (arith, at, bt, same);
}

before-IsValid : IsValid before
unfolding sort_key ntohl
before-IsValid = record {
  sorted = (omega arith, (omega arith, (omega arith, tt)));
  consistent = before-IsConsistent;
}

housekeeping-Kept_example :
    (ctx : ToolContext) × (housekeeping 1000 before ≡ some ctx) × Kept 1000 before ctx
housekeeping-Kept_example = housekeeping-Kept 1000 before before-IsValid (omega arith)

housekeeping-streaming_example :
    (ctx : ToolContext) × (e : DiscoveredItem) × (housekeeping 1000 before ≡ some ctx)
    × (find_addr 4096 ctx.list ≡ some e)
    × (fixed e ≡ fixed (sample 4096 first_headers 24 0 998))
    × (is_set e Flag.dst_duplicate
        ≡ duplicated 1000 (sample 4096 first_headers 24 0 998) before.list)
unfolding find_addr is_di_streaming
housekeeping-streaming_example =
    housekeeping-streaming 1000 before before-IsValid (omega arith) 4096
      (sample 4096 first_headers 24 0 998) refl refl

abbrev listed : Option ToolContext → List (ℕ × ℕ)
listed none = []
listed (some ctx) = map (λ e. (e.addr, e.state)) ctx.list

-- Both senders have the flag, and the third is gone.
after_a_run : listed (housekeeping 1000 before) ≡ (4096, 128) ∷ (8192, 128) ∷ []
unfolding housekeeping hide_stale update_duplicates update_duplicate addresses purge expired
    mark_duplicate count_if settle conflict stale_duplicate same_destination is_di_streaming
    find_addr update_addr is_set state_get state_set state_clr mask position network_addr_compare
    is_di_dst_duplicate sort_key ntohl remove entry store
after_a_run = refl
