-- ===== src/Monitor/Cached.antt =====
-- The lookup through the cache against the search through the whole list.
use ltntstools.Base.{
  ℕ, ◌<◌, ◌≡◌, ◌≢◌, refl, sym, ◌∙◌, ap, ◌⊎◌, inl, inr, true, Option, none, some, List, [], ◌∷◌,
  arith, ◌==◌, Bool-cases, ==_refl, subst,
}
use ltntstools.HashIndex.{contains, compute_stream_hash}
use ltntstools.Item.{Headers, DiscoveredItem, network_addr_compare}
use ltntstools.Monitor.{ToolContext, find_cached, find_linear}
use ltntstools.Monitor.Store.{Stream, stream, stream_of, Distinct, compare-eq, compare_refl}
use ltntstools.Monitor.Lookup.{Finds, search_array-Finds, find_cached-array}
use ltntstools.Monitor.Consistency.{IsConsistent}

-- What the search through the list answers, in terms of the streams of the list.
LinearFinds : List DiscoveredItem → Headers → Option ℕ → Type 0
LinearFinds l h r =
    ((r ≡ none) × ((a : ℕ) (s : Stream) → stream_of a l ≡ some s → s.0 ≢ h))
    ⊎ ((a : ℕ) × (s : Stream) × (r ≡ some a) × (stream_of a l ≡ some s) × (s.0 ≡ h))

find_linear-LinearFinds :
    (l : List DiscoveredItem) (h : Headers) → Distinct l → LinearFinds l h (find_linear l h)
unfolding find_linear stream_of LinearFinds
find_linear-LinearFinds [] h d = inl (refl, λ a s at. ground arith)
find_linear-LinearFinds (e ∷ rest) h d = elim (Bool-cases (network_addr_compare h e.headers)) [
  | inl match ↦ inr (e.addr, stream e, rw match, rw ==_refl, sym (compare-eq h e.headers match))
  | inr differ ↦ elim (find_linear-LinearFinds rest h d.1) [
    | inl (nothing, absent) ↦ inl (
      rw differ nothing,
      λ a s at same. elim (Bool-cases (e.addr == a)) [
        | inl here ↦ ground (arith, compare_refl h, at, same)
        | inr there ↦ absent a s (rw there at at) same
      ],
    )
    | inr (a, s, found, at, same) ↦ inr (a, s, rw differ found, ground (arith, d.0), same)
  ]
]

module _ (ctx : ToolContext) (h : Headers) (c : IsConsistent ctx.list ctx.hash_index) where
  pub find_cached-Finds :
      compute_stream_hash h < 65535
      → Finds ctx.list h
          (λ a. contains (ctx.hash_index.arr (compute_stream_hash h)) a ≡ true)
          (find_cached ctx h)
  find_cached-Finds inside = rw (find_cached-array ctx h (rw c.slots inside)) (
      search_array-Finds ctx.list h (ctx.hash_index.arr (compute_stream_hash h))
        (λ a among. elim (c.followed (compute_stream_hash h) a among) [
          | inl is_dead ↦ inl is_dead
          | inr (s, at, _) ↦ inr (s, at)
        ])
        (λ a s at. (c.not_null a s at, c.not_dead a s at)))

  -- An object with these headers stands in the array of their hash.
  pub in_array :
      (a : ℕ) (s : Stream)
      → stream_of a ctx.list ≡ some s
      → s.0 ≡ h
      → contains (ctx.hash_index.arr (compute_stream_hash h)) a ≡ true
  in_array a s at same =
      subst (λ k. contains (ctx.hash_index.arr k) a ≡ true)
        (c.hashed a s at ∙ ap compute_stream_hash same) (c.indexed a s at)

  agree :
      (r : Option (Option ℕ)) (q : Option ℕ)
      → Finds ctx.list h (λ a. contains (ctx.hash_index.arr (compute_stream_hash h)) a ≡ true) r
      → LinearFinds ctx.list h q
      → r ≡ some q
  unfolding LinearFinds
  agree r q (inl (e, absent)) (inl (f, _)) = cc
  agree r q (inl (e, absent)) (inr (a, s, f, at, same)) =
      absurd (absent a s (in_array a s at same) at same)
  agree r q (inr (a, s, e, at, same)) (inl (f, absent)) = absurd (absent a s at same)
  agree r q (inr (a, s, e, at, same)) (inr (b, t, f, bt, same')) =
      ground (arith, c.unique a b s t at bt (same ∙ sym same'))

-- In a consistent context the lookup through the cache answers what a search of the whole list
-- would, the object with the same addresses and ports or NULL, and does not fault, for every
-- stream whose hash has an entry in the table.
pub find_cached-linear :
    (ctx : ToolContext) (h : Headers)
    → IsConsistent ctx.list ctx.hash_index
    → compute_stream_hash h < 65535
    → find_cached ctx h ≡ some (find_linear ctx.list h)
find_cached-linear ctx h c inside =
    agree ctx h c _ _ (find_cached-Finds ctx h c inside)
      (find_linear-LinearFinds ctx.list h c.distinct)
