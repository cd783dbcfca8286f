-- ===== src/Monitor/Findcreate.antt =====
-- discovered_item_findcreate as a whole: what it returns and what it keeps.
use ltntstools.Base.{
  ℕ, ◌+◌, ◌%◌, ◌<◌, ◌≡◌, ◌≢◌, refl, ◌⊎◌, inl, inr, Option, none, some, List, [], ◌∷◌, arith,
  Option-cases,
}
use ltntstools.HashIndex.{compute_stream_hash, cal_hash, alloc}
use ltntstools.HashIndex.Hash.{cal_hash_outside}
use ltntstools.Item.{Headers, DiscoveredItem, ntohl, ntohs}
use ltntstools.Monitor.{
  ToolContext, Environment, update_addr, sort_key, discovered_item_alloc, create, findcreate,
}
use ltntstools.Monitor.Store.{Stream, stream_of, Keeps}
use ltntstools.Monitor.Insert.{SortedFrom, insert-SortedFrom}
use ltntstools.Monitor.Lookup.{find_cached_outside}
use ltntstools.Monitor.Cached.{find_cached-Finds, in_array}
use ltntstools.Monitor.Create.{
  IsFresh, automatic_flags-Keeps, created, created_index, create_lem, created_streams,
  created-IsConsistent,
}
use ltntstools.Monitor.Consistency.{IsConsistent}

-- The list is sorted, and consistent with the cache.
pub record IsValid (ctx : ToolContext) : Type 0 where
  pub sorted : SortedFrom 0 ctx.list
  pub consistent : IsConsistent ctx.list ctx.hash_index

pub update_addr-SortedFrom :
    {f : DiscoveredItem → DiscoveredItem} (keeps : Keeps f) (a b : ℕ) (l : List DiscoveredItem)
    → SortedFrom b l
    → SortedFrom b (update_addr a f l)
unfolding update_addr
update_addr-SortedFrom keeps a b [] s = tt
update_addr-SortedFrom keeps a b (e ∷ rest) s =
    ground
      (arith, keeps.same_headers e, update_addr-SortedFrom keeps a (sort_key e.headers) rest s.1)

-- What a call that does not fault leaves: a valid context in which no object is lost, and the
-- pointer to the one object with the headers, or NULL if there was none and none was allocated.
pub record Found (env : Environment) (ctx : ToolContext) (h : Headers) (r : Option ℕ)
    (ctx' : ToolContext) : Type 0 where
  pub valid : IsValid ctx'
  pub kept : (a : ℕ) (s : Stream) → stream_of a ctx.list ≡ some s → stream_of a ctx'.list ≡ some s
  pub answer :
      ((r ≡ none) × (env.fresh ≡ none) × (ctx'.list ≡ ctx.list))
      ⊎ ((a : ℕ) × (s : Stream) × (r ≡ some a) × (stream_of a ctx'.list ≡ some s) × (s.0 ≡ h))

module _ (env : Environment) (ctx : ToolContext) (h : Headers) (v : IsValid ctx)
    (fresh : IsFresh env ctx) (inside : compute_stream_hash h < 65535) where
  missed : ToolContext
  missed = record ctx { cache_miss = ctx.cache_miss + 1 }

  created-SortedFrom : (addr : ℕ) → SortedFrom 0 (created env missed h addr)
  unfolding created missed discovered_item_alloc
  created-SortedFrom addr =
      update_addr-SortedFrom (automatic_flags-Keeps missed) addr 0 _
        (insert-SortedFrom _ 0 ctx.list (omega arith) v.sorted)

  create-Found :
      ((a : ℕ) (s : Stream) → stream_of a ctx.list ≡ some s → s.0 ≢ h)
      → (r : Option ℕ) × (ctx' : ToolContext) × (create env missed h ≡ some (r, ctx'))
        × Found env ctx h r ctx'
  unfolding missed
  create-Found absent = elim (Option-cases env.fresh) [
    | inl e ↦ (
      none,
      missed,
      unfold create in rw e,
      record {
        valid = record { sorted = v.sorted; consistent = v.consistent };
        kept = λ a s at. at;
        answer = inl (refl, e, refl);
      },
    )
    | inr (addr, e) ↦ (
      some addr,
      record missed {
        list = created env missed h addr;
        hash_index = created_index env missed h addr;
      },
      create_lem env missed h addr e (rw v.consistent.slots inside),
      record {
        valid = record {
          sorted = created-SortedFrom addr;
          consistent =
              created-IsConsistent env missed h addr v.consistent (fresh addr e).0 (fresh addr e).1
                (fresh addr e).2 absent inside;
        };
        kept = λ a s at.
            ground
              (arith, created_streams env missed h addr (fresh addr e).2 a, (fresh addr e).2, at);
        answer = inr (
          addr,
          (h, compute_stream_hash h),
          refl,
          ground (arith, created_streams env missed h addr (fresh addr e).2 addr),
          refl,
        );
      },
    )
  ]

  -- In a valid context, where what `calloc` returns is no address in use, for every stream whose
  -- hash has an entry in the table: the call returns without a fault, the context stays sorted and
  -- consistent, no object is lost, and the result is the object with the headers, or NULL if there
  -- was none and the memory ran out.
  pub findcreate-Found :
      (r : Option ℕ) × (ctx' : ToolContext) × (findcreate env ctx h ≡ some (r, ctx'))
      × Found env ctx h r ctx'
  unfolding findcreate missed
  findcreate-Found = elim (find_cached-Finds ctx h v.consistent inside) [
    | inl (e, absent) ↦
        let (r, ctx', made, found) =
          create-Found
            (λ a s at same. absent a s (in_array ctx h v.consistent a s at same) at same) in
        (r, ctx', rw (e, findcreate) made, found)
    | inr (a, s, e, at, same) ↦ (
      some a,
      record ctx { cache_hit = ctx.cache_hit + 1 },
      rw (e, findcreate),
      record {
        valid = record { sorted = v.sorted; consistent = v.consistent };
        kept = λ b t bt. bt;
        answer = inr (a, s, refl, at, same);
      },
    )
  ]

-- In a valid context, a stream that the list has and whose hash has an entry in the table is found
-- again: the call returns the same object, and leaves everything but the count of hits as it was.
pub findcreate_again :
    (env : Environment) (ctx : ToolContext) (a : ℕ) (s : Stream)
    → IsValid ctx
    → stream_of a ctx.list ≡ some s
    → compute_stream_hash s.0 < 65535
    → findcreate env ctx s.0 ≡ some (some a, record ctx { cache_hit = ctx.cache_hit + 1 })
unfolding findcreate
findcreate_again env ctx a s v at inside = elim (find_cached-Finds ctx s.0 v.consistent inside) [
  | inl (e, absent) ↦ absurd (absent a s (in_array ctx s.0 v.consistent a s at refl) at refl)
  | inr (b, t, e, bt, same) ↦ ground (arith, v.consistent.unique b a t s bt at same)
]

-- With the table of 65535 entries that hash_index_alloc makes for 65536 hashes: a stream to an address whose low twelve bits are
-- all ones, on a port whose low four bits are, makes every call read outside the table.
pub findcreate_outside :
    (env : Environment) (ctx : ToolContext) (h : Headers)
    → ctx.hash_index.slots ≡ alloc.slots
    → ntohl h.daddr % 4096 ≡ 4095
    → ntohs h.dest % 16 ≡ 15
    → findcreate env ctx h ≡ none
unfolding findcreate compute_stream_hash alloc
findcreate_outside env ctx h slots address port =
    let hash : cal_hash (ntohl h.daddr) (ntohs h.dest) ≡ 65535 =
      (cal_hash_outside (ntohl h.daddr) (ntohs h.dest)).1 (address, port) in
    rw (find_cached_outside ctx h (omega (arith, hash)), findcreate)
