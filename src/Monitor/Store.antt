-- ===== src/Monitor/Store.antt =====
-- The store of objects by address: what each address stands for, whatever its flags are.
use ltntstools.Base.{
  ℕ, ◌≡◌, refl, ◌⊎◌, inl, inr, true, Option, none, some, List, [], ◌∷◌, arith, ◌==◌, if◌then◌else◌,
  Bool-cases,
}
use ltntstools.Item.{Headers, DiscoveredItem, network_addr_compare}
use ltntstools.Monitor.{find_addr, update_addr}

-- The stream of an object: its headers, and the hash under which the cache has it.
abbrev pub Stream : Type 0
Stream = Headers × ℕ

abbrev pub stream : DiscoveredItem → Stream
stream e = (e.headers, e.cache_hash_key)

unfoldable pub stream_of : ℕ → List DiscoveredItem → Option Stream
stream_of a [] = none
stream_of a (e ∷ rest) = if e.addr == a then some (stream e) else stream_of a rest

-- No two objects of the list share an address.
abbrev pub Distinct : List DiscoveredItem → Type 0
Distinct [] = Unit {0}
Distinct (e ∷ rest) = (stream_of e.addr rest ≡ none) × Distinct rest

pub stream_of-find_addr :
    (a : ℕ) (l : List DiscoveredItem)
    → ((find_addr a l ≡ none) × (stream_of a l ≡ none))
      ⊎ ((e : DiscoveredItem) × (find_addr a l ≡ some e) × (stream_of a l ≡ some (stream e)))
unfolding find_addr stream_of
stream_of-find_addr a [] = inl (refl, refl)
stream_of-find_addr a (e ∷ rest) = elim (Bool-cases (e.addr == a)) [
  | inl here ↦ inr (e, rw here, rw here)
  | inr there ↦ rw there (stream_of-find_addr a rest)
]

-- An update that keeps an object's address and stream.
pub record Keeps (f : DiscoveredItem → DiscoveredItem) : Type 0 where
  pub same_addr : (e : DiscoveredItem) → (f e).addr ≡ e.addr
  pub same_headers : (e : DiscoveredItem) → (f e).headers ≡ e.headers
  pub same_key : (e : DiscoveredItem) → (f e).cache_hash_key ≡ e.cache_hash_key

module _ {f : DiscoveredItem → DiscoveredItem} (keeps : Keeps f) where
  pub stream_of-update_addr :
      (a b : ℕ) (l : List DiscoveredItem) → stream_of a (update_addr b f l) ≡ stream_of a l
  unfolding stream_of update_addr
  stream_of-update_addr a b [] = refl
  stream_of-update_addr a b (e ∷ rest) = ground (
    arith,
    stream_of-update_addr a b rest,
    keeps.same_addr e,
    keeps.same_headers e,
    keeps.same_key e,
  )

  pub update_addr-Distinct :
      (b : ℕ) (l : List DiscoveredItem) → Distinct l → Distinct (update_addr b f l)
  unfolding update_addr
  update_addr-Distinct b [] d = tt
  update_addr-Distinct b (e ∷ rest) d = ground (
    arith,
    update_addr-Distinct b rest d.1,
    stream_of-update_addr e.addr b rest,
    keeps.same_addr e,
  )

-- The comparison of headers is their equality.
pub compare-eq : (x y : Headers) → network_addr_compare x y ≡ true → x ≡ y
unfolding network_addr_compare
compare-eq x y h = ground arith

pub compare_refl : (x : Headers) → network_addr_compare x x ≡ true
unfolding network_addr_compare
compare_refl x = ground arith
