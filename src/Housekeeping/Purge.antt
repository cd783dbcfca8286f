-- ===== src/Housekeeping/Purge.antt =====
-- What the third stage takes from the list and from the cache.
use ltntstools.Base.{
  ℕ, ◌≤◌, ◌<◌, ◌≡◌, ◌≢◌, refl, ◌∙◌, ◌⊎◌, inl, inr, Bool, false, not, ◌&&◌, ◌||◌, none, some, List,
  [], ◌∷◌, map, arith, ◌==◌, if◌then◌else◌, Bool-cases,
}
use ltntstools.HashIndex
use ltntstools.HashIndex.{HashIndex, contains, dead, entry, store}
use ltntstools.Item.{DiscoveredItem}
use ltntstools.Monitor.Store.{Stream, stream, stream_of, Distinct}
use ltntstools.Monitor.Insert.{SortedFrom}
use ltntstools.Monitor.{sort_key}
use ltntstools.Housekeeping.{expired, purge}

-- The objects that stay.
unfoldable pub kept : ℕ → List DiscoveredItem → List DiscoveredItem
kept now [] = []
kept now (e ∷ l) = if expired now e then kept now l else e ∷ kept now l

-- Whether the pointer `a` is taken from the array of `k`.
unfoldable pub removed : ℕ → List DiscoveredItem → ℕ → ℕ → Bool
removed now [] k a = false
removed now (e ∷ l) k a =
    (expired now e && e.cache_hash_key == k && e.addr == a) || removed now l k a

contains-remove :
    (items : List ℕ) (item a : ℕ)
    → a ≢ dead
    → contains (map (λ x. if x == item then dead else x) items) a
      ≡ (contains items a && not (item == a))
unfolding contains
contains-remove [] item a alive = refl
contains-remove (x ∷ items) item a alive = ground (arith, contains-remove items item a alive)

-- A removal inside the table: one pointer is gone from one array.
pub remove_lem :
    (p : HashIndex) (k item : ℕ)
    → k < p.slots
    → (p' : HashIndex) × (HashIndex.remove p k item ≡ some p')
      × (p'.slots ≡ p.slots)
      × ((j a : ℕ)
          → a ≢ dead
          → contains (p'.arr j) a ≡ (contains (p.arr j) a && not (k == j && item == a)))
unfolding HashIndex.remove entry store
remove_lem p k item inside = (
  store p k (map (λ x. if x == item then dead else x) (p.arr k)),
  ground arith,
  refl,
  λ j a alive. ground (arith, contains-remove (p.arr k) item a alive),
)

pub purge_lem :
    (now bound : ℕ) (l : List DiscoveredItem) (p : HashIndex)
    → p.slots ≡ bound
    → ((a : ℕ) (s : Stream) → stream_of a l ≡ some s → s.1 < bound)
    → Distinct l
    → (p' : HashIndex) × (purge now l p ≡ some (kept now l, p'))
      × (p'.slots ≡ bound)
      × ((j a : ℕ)
          → a ≢ dead
          → contains (p'.arr j) a ≡ (contains (p.arr j) a && not (removed now l j a)))
unfolding purge kept removed stream_of
purge_lem now bound [] p slots inside d = (p, refl, slots, λ j a alive. ground arith)
purge_lem now bound (e ∷ l) p slots inside d =
    let inside_rest : (a : ℕ) (s : Stream) → stream_of a l ≡ some s → s.1 < bound =
      λ a s at. inside a s (ground (arith, d.0, at)) in
    elim (Bool-cases (expired now e)) [
      | inl gone ↦
          let here : e.cache_hash_key < bound = inside e.addr (stream e) (ground arith) in
          let (q, r, slots', entries) = remove_lem p e.cache_hash_key e.addr (rw slots here) in
          let (p', done, slots'', entries') =
            purge_lem now bound l q (slots' ∙ slots) inside_rest d.1 in
          (
            p',
            rw (gone, r, done, purge, kept),
            slots'',
            λ j a alive. ground (arith, gone, entries j a alive, entries' j a alive),
          )
      | inr stays ↦
          let (p', done, slots', entries') = purge_lem now bound l p slots inside_rest d.1 in
          (
            p',
            rw (stays, done, purge, kept),
            slots',
            λ j a alive. ground (arith, stays, entries' j a alive),
          )
    ]

kept-absent :
    (now a : ℕ) (l : List DiscoveredItem)
    → stream_of a l ≡ none
    → (stream_of a (kept now l) ≡ none) × ((k : ℕ) → removed now l k a ≡ false)
unfolding kept removed stream_of
kept-absent now a [] free = (refl, λ k. refl)
kept-absent now a (e ∷ l) free =
    let (nothing, none_removed) = kept-absent now a l (ground (arith, free)) in
    (ground (arith, nothing, free), λ k. ground (arith, none_removed k, free))

-- What an address stands for afterwards: what it did, or nothing if its object was expired.
pub kept-streams :
    (now a : ℕ) (l : List DiscoveredItem)
    → Distinct l
    → ((stream_of a l ≡ none)
        × (stream_of a (kept now l) ≡ none)
        × ((k : ℕ) → removed now l k a ≡ false))
      ⊎ ((s : Stream) × (stream_of a l ≡ some s)
          × (((stream_of a (kept now l) ≡ some s) × ((k : ℕ) → removed now l k a ≡ false))
              ⊎ ((stream_of a (kept now l) ≡ none) × ((k : ℕ) → removed now l k a ≡ (s.1 == k)))))
unfolding kept removed stream_of
kept-streams now a [] d = inl (refl, refl, λ k. refl)
kept-streams now a (e ∷ l) d = elim (Bool-cases (e.addr == a)) [
  | inl here ↦
      let (nothing, none_removed) = kept-absent now a l (ground (arith, d.0, here)) in
      elim (Bool-cases (expired now e)) [
        | inl gone ↦ inr (
          stream e,
          ground arith,
          inr (ground (arith, gone, nothing), λ k. ground (arith, gone, none_removed k)),
        )
        | inr stays ↦ inr (
          stream e,
          ground arith,
          inl (ground (arith, stays), λ k. ground (arith, stays, none_removed k)),
        )
      ]
  | inr there ↦ elim (kept-streams now a l d.1) [
    | inl (free, nothing, none_removed) ↦
        inl (ground arith, ground arith, λ k. ground (arith, none_removed k))
    | inr (s, at, inl (still, none_removed)) ↦
        inr (s, ground arith, inl (ground arith, λ k. ground (arith, none_removed k)))
    | inr (s, at, inr (gone, all_removed)) ↦
        inr (s, ground arith, inr (ground arith, λ k. ground (arith, all_removed k)))
  ]
]

pub kept-Distinct : (now : ℕ) (l : List DiscoveredItem) → Distinct l → Distinct (kept now l)
unfolding kept
kept-Distinct now [] d = tt
kept-Distinct now (e ∷ l) d = ground (arith, kept-Distinct now l d.1, kept-streams now e.addr l d.1)

kept-SortedFrom_weak :
    (now b c : ℕ) (l : List DiscoveredItem) → b ≤ c → SortedFrom c l → SortedFrom b l
kept-SortedFrom_weak now b c [] h s = tt
kept-SortedFrom_weak now b c (e ∷ l) h s = (omega (arith, h, s.0), s.1)

pub kept-SortedFrom :
    (now b : ℕ) (l : List DiscoveredItem) → SortedFrom b l → SortedFrom b (kept now l)
unfolding kept
kept-SortedFrom now b [] s = tt
kept-SortedFrom now b (e ∷ l) s = ground (
  arith,
  kept-SortedFrom now (sort_key e.headers) l s.1,
  kept-SortedFrom_weak now b (sort_key e.headers) (kept now l) s.0,
)
