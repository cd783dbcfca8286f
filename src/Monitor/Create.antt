-- ===== src/Monitor/Create.antt =====
-- The creation of an object in discovered_item_findcreate: the list and the cache after it.
use ltntstools.Base.{
  ℕ, ◌<◌, ◌≡◌, ◌≢◌, refl, ◌∙◌, inl, inr, ◌||◌, none, some, List, [], ◌∷◌, ◌++◌, arith, ◌==◌,
  if◌then◌else◌, Bool-cases,
}
use ltntstools.HashIndex.{HashIndex, add, entry, store, contains, dead, compute_stream_hash}
use ltntstools.Item.{Headers, DiscoveredItem, state_set}
use ltntstools.Monitor.{
  ToolContext, Environment, insert, update_addr, discovered_item_alloc, automatic_flags, create,
}
use ltntstools.Monitor.Store.{
  Stream, stream_of, Distinct, Keeps, stream_of-update_addr, update_addr-Distinct,
}
use ltntstools.Monitor.Insert.{stream_of-insert, insert-Distinct}
use ltntstools.Monitor.Consistency.{IsConsistent}

pub contains-append :
    (xs ys : List ℕ) (a : ℕ) → contains (xs ++ ys) a ≡ (contains xs a || contains ys a)
unfolding contains
contains-append [] ys a = refl
contains-append (x ∷ xs) ys a = ground (arith, contains-append xs ys a)

pub automatic_flags-Keeps : (ctx : ToolContext) → Keeps (automatic_flags ctx)
unfolding automatic_flags state_set
automatic_flags-Keeps ctx = record {
  same_addr = λ e. ground arith;
  same_headers = λ e. ground arith;
  same_key = λ e. ground arith;
}

-- A consistent state, and one that has one stream more in both places.
module _ {l l' : List DiscoveredItem} {p p' : HashIndex} {addr : ℕ} {h : Headers}
    (c : IsConsistent l p) (not_null : addr ≢ 0) (not_dead : addr ≢ dead)
    (free : stream_of addr l ≡ none)
    (absent : (a : ℕ) (s : Stream) → stream_of a l ≡ some s → s.0 ≢ h)
    (in_table : compute_stream_hash h < 65535)
    (streams : (a : ℕ)
      → stream_of a l' ≡ (if addr == a then some (h, compute_stream_hash h) else stream_of a l))
    (entries : (k a : ℕ)
      → contains (p'.arr k) a ≡ (
          if compute_stream_hash h == k
          then (contains (p.arr k) a || addr == a)
          else contains (p.arr k) a)) where
  extend-IsConsistent : p'.slots ≡ 65535 → Distinct l' → IsConsistent l' p'
  extend-IsConsistent slots distinct = record {
    slots = slots;
    distinct = distinct;
    hashed = λ a s at. ground (arith, streams a, at, c.hashed a s);
    inside = λ a s at. ground (arith, streams a, at, c.inside a s, in_table);
    indexed = λ a s at. ground (arith, streams a, at, c.indexed a s, entries s.1 a);
    not_null = λ a s at. ground (arith, streams a, at, c.not_null a s);
    not_dead = λ a s at. ground (arith, streams a, at, c.not_dead a s);
    followed = λ k a among. elim (Bool-cases (contains (p.arr k) a)) [
      | inl old ↦ elim (c.followed k a old) [
        | inl is_dead ↦ inl is_dead
        | inr (s, at, key) ↦ inr (s, ground (arith, streams a, at, free), key)
      ]
      | inr new ↦ inr (
        (h, compute_stream_hash h),
        ground (arith, streams a, entries k a, among),
        ground (arith, entries k a, among),
      )
    ];
    unique = λ a b s t at bt same.
        ground
          (arith, streams a, streams b, at, bt, same, c.unique a b s t, absent a s, absent b t);
  }

-- What `calloc` promises: an address that is not NULL, is aligned, and belongs to no object.
abbrev pub IsFresh : Environment → ToolContext → Type 0
IsFresh env ctx =
    (a : ℕ) → env.fresh ≡ some a → (a ≢ 0) × (a ≢ dead) × (stream_of a ctx.list ≡ none)

module _ (env : Environment) (ctx : ToolContext) (h : Headers) (addr : ℕ) where
  -- The list after an object was created.
  unfoldable pub created : List DiscoveredItem
  created =
      update_addr addr (automatic_flags ctx)
        (insert (discovered_item_alloc env addr h (compute_stream_hash h)) ctx.list)

  unfoldable pub created_index : HashIndex
  created_index =
      store ctx.hash_index (compute_stream_hash h)
        (ctx.hash_index.arr (compute_stream_hash h) ++ addr ∷ [])

  pub create_lem :
      env.fresh ≡ some addr
      → compute_stream_hash h < ctx.hash_index.slots
      → create env ctx h
        ≡ some (some addr, record ctx { list = created; hash_index = created_index })
  unfolding create add entry created created_index
  create_lem fresh inside = ground arith

  pub created_streams :
      stream_of addr ctx.list ≡ none
      → (a : ℕ)
      → stream_of a created
        ≡ (if addr == a then some (h, compute_stream_hash h) else stream_of a ctx.list)
  unfolding created discovered_item_alloc
  created_streams free a =
      stream_of-update_addr (automatic_flags-Keeps ctx) a addr _
      ∙ stream_of-insert _ a ctx.list free

  created_entries :
      (k a : ℕ)
      → contains (created_index.arr k) a ≡ (
          if compute_stream_hash h == k
          then (contains (ctx.hash_index.arr k) a || addr == a)
          else contains (ctx.hash_index.arr k) a)
  unfolding created_index store contains
  created_entries k a =
      ground (arith, contains-append (ctx.hash_index.arr (compute_stream_hash h)) (addr ∷ []) a)

  pub created-IsConsistent :
      IsConsistent ctx.list ctx.hash_index
      → addr ≢ 0
      → addr ≢ dead
      → stream_of addr ctx.list ≡ none
      → ((a : ℕ) (s : Stream) → stream_of a ctx.list ≡ some s → s.0 ≢ h)
      → compute_stream_hash h < 65535
      → IsConsistent created created_index
  created-IsConsistent c not_null not_dead free absent inside =
      extend-IsConsistent c not_null not_dead free absent inside (created_streams free)
        created_entries (unfold created_index store in c.slots)
        (unfold created discovered_item_alloc in
          update_addr-Distinct (automatic_flags-Keeps ctx) addr _
            (insert-Distinct _ ctx.list free c.distinct))
