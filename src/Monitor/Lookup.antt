-- ===== src/Monitor/Lookup.antt =====
-- The cached lookup of discovered_item_findcreate, by the array of one hash.
use ltntstools.Base.{
  ℕ, zero, suc, ◌+◌, ◌≤◌, ◌<◌, ◌≡◌, ◌≢◌, refl, sym, ◌∙◌, ap, ◌⊎◌, inl, inr, true, false, not, ◌&&◌,
  Option, none, some, List, [], ◌∷◌, arith, ◌==◌, length, get_elem?, drop, subst, Bool-cases,
  ==_iff, ==_refl,
}
use mathlib.Core.Bool.{false≢true}
use ltntstools.HashIndex.{HashIndex, contains, dead, compute_stream_hash, get_enum, get_count}
use ltntstools.Item.{Headers, DiscoveredItem, network_addr_compare}
use ltntstools.Monitor.{ToolContext, find_addr, search_cache, find_cached}
use ltntstools.Monitor.Store.{
  Stream, stream, stream_of, stream_of-find_addr, compare-eq, compare_refl,
}

-- The search over an array of pointers, as a plain recursion.
pub search_array : List DiscoveredItem → Headers → List ℕ → Option (Option ℕ)
search_array list h [] = some none
search_array list h (x ∷ xs) = elim (not (x == 0) && not (x == dead)) [
  | false ↦ search_array list h xs
  | true ↦ elim (find_addr x list) [
    | none ↦ none
    | some e ↦ elim (network_addr_compare h e.headers) [
      | true ↦ some (some x)
      | false ↦ search_array list h xs
    ]
  ]
]

drop_cases :
    (xs : List ℕ) (i : ℕ)
    → ((drop i xs ≡ []) × (get_elem? xs i ≡ none))
      ⊎ ((x : ℕ) × (drop i xs ≡ x ∷ drop (i + 1) xs) × (get_elem? xs i ≡ some x) × (i < length xs))
drop_cases [] zero = inl (refl, refl)
drop_cases [] (suc i) = inl (refl, refl)
drop_cases (x ∷ xs) zero = inr (x, refl, refl, omega arith)
drop_cases (x ∷ xs) (suc i) = elim (drop_cases xs i) [
  | inl (p, q) ↦ inl (p, q)
  | inr (y, p, q, r) ↦ inr (
    y,
    p ∙ ap (λ n. y ∷ drop n (x ∷ xs)) (let e : suc (i + 1) ≡ suc i + 1 = omega arith in e),
    q,
    omega arith,
  )
]

-- With fuel for the rest of the array the loop is that recursion.
search_cache-array :
    (fuel : ℕ) (list : List DiscoveredItem) (index : HashIndex) (h : Headers) (hash i : ℕ)
    → hash < index.slots
    → length (index.arr hash) < fuel + i
    → i ≤ length (index.arr hash)
    → search_cache fuel list index h hash i ≡ search_array list h (drop i (index.arr hash))
unfolding search_cache get_enum search_array
search_cache-array zero list index h hash i slot enough inside = absurd (omega arith)
search_cache-array (suc fuel) list index h hash i slot enough inside =
    elim (drop_cases (index.arr hash) i) [
      | inl (e, f) ↦ ground arith
      | inr (x, e, f, lt) ↦ ground (arith, search_cache-array fuel list index h hash (i + 1))
    ]

-- What a search must answer: no fault, and the object with the headers if there is one.
abbrev pub Finds : List DiscoveredItem → Headers → (ℕ → Type 0) → Option (Option ℕ) → Type 0
Finds list h Among r =
    ((r ≡ some none) × ((a : ℕ) (s : Stream) → Among a → stream_of a list ≡ some s → s.0 ≢ h))
    ⊎ ((a : ℕ) × (s : Stream) × (r ≡ some (some a)) × (stream_of a list ≡ some s) × (s.0 ≡ h))

module _ (list : List DiscoveredItem) (h : Headers) where
  -- Extends the answer for the rest of an array over an entry that does not match.
  skip :
      (x : ℕ) (xs : List ℕ) (r : Option (Option ℕ))
      → ((s : Stream) → stream_of x list ≡ some s → s.0 ≢ h)
      → Finds list h (λ a. contains xs a ≡ true) r
      → Finds list h (λ a. contains (x ∷ xs) a ≡ true) r
  unfolding contains
  skip x xs r differs (inr found) = inr found
  skip x xs r differs (inl (e, none_there)) = inl (
    e,
    λ a s among at. elim (Bool-cases (x == a)) [
      | inl here ↦ differs s (subst (λ n. stream_of n list ≡ some s) (sym ((==_iff x a).0 here)) at)
      | inr there ↦ none_there a s (rw there at among) at
    ],
  )

  abbrev pub Live : ℕ → Type 0
  Live a = (s : Stream) × (stream_of a list ≡ some s)

  abbrev pub Proper : Type 0
  Proper = (a : ℕ) (s : Stream) → stream_of a list ≡ some s → (a ≢ 0) × (a ≢ dead)

  -- One entry of the array, given the answer for the rest.
  search_entry :
      (x : ℕ) (xs : List ℕ)
      → (x ≡ dead) ⊎ Live x
      → Proper
      → Finds list h (λ a. contains xs a ≡ true) (search_array list h xs)
      → Finds list h (λ a. contains (x ∷ xs) a ≡ true) (search_array list h (x ∷ xs))
  unfolding search_array
  search_entry x xs (inl is_dead) proper rest =
      subst (λ y. Finds list h (λ a. contains (y ∷ xs) a ≡ true) (search_array list h (y ∷ xs)))
        (sym is_dead)
        (skip dead xs (search_array list h xs) (λ s at. absurd ((proper dead s at).1 refl)) rest)
  search_entry x xs (inr (s, at)) proper rest = elim (stream_of-find_addr x list) [
    | inl (missing, nowhere) ↦ ground (arith, nowhere, at)
    | inr (e, found, at') ↦ elim (Bool-cases (network_addr_compare h e.headers)) [
      | inl match ↦
          inr (x, stream e, ground (arith, proper x s at), at', sym (compare-eq h e.headers match))
      | inr differ ↦
          subst (Finds list h (λ a. contains (x ∷ xs) a ≡ true))
            (let step : search_array list h xs ≡ search_array list h (x ∷ xs) =
                ground (arith, proper x s at) in
              step)
            (skip x xs (search_array list h xs)
              (λ t at_t same. ground (arith, compare_refl h, at_t, same)) rest)
    ]
  ]

  pub search_array-Finds :
      (xs : List ℕ)
      → ((a : ℕ) → contains xs a ≡ true → (a ≡ dead) ⊎ Live a)
      → Proper
      → Finds list h (λ a. contains xs a ≡ true) (search_array list h xs)
  unfolding search_array contains
  search_array-Finds [] follows proper = inl (refl, λ a s among. absurd (false≢true among))
  search_array-Finds (x ∷ xs) follows proper = search_entry x xs (follows x (rw ==_refl)) proper (
      search_array-Finds xs
        (λ a among. follows a (elim (Bool-cases (x == a)) [ inl e ↦ rw e | inr e ↦ rw e among ]))
        proper)

array_cases : (xs : List ℕ) → (xs ≡ []) ⊎ (1 ≤ length xs)
array_cases [] = inl refl
array_cases (x ∷ xs) = inr (omega arith)

-- Inside the table the cached lookup is the search over the array of the hash.
pub find_cached-array :
    (ctx : ToolContext) (h : Headers)
    → compute_stream_hash h < ctx.hash_index.slots
    → find_cached ctx h ≡ search_array ctx.list h (ctx.hash_index.arr (compute_stream_hash h))
unfolding find_cached get_count search_array
find_cached-array ctx h inside = elim (array_cases (ctx.hash_index.arr (compute_stream_hash h))) [
  | inl empty ↦ ground arith
  | inr some_entries ↦ ground (
    arith,
    search_cache-array (length (ctx.hash_index.arr (compute_stream_hash h)) + 1) ctx.list
        ctx.hash_index h (compute_stream_hash h) 0,
  )
]

-- Outside it is a fault.
pub find_cached_outside :
    (ctx : ToolContext) (h : Headers)
    → ctx.hash_index.slots ≤ compute_stream_hash h
    → find_cached ctx h ≡ none
unfolding find_cached get_count
find_cached_outside ctx h outside = ground arith
