-- ===== src/Monitor/Consistency.antt =====
-- The consistency of the list and the cache, and what it is worth to the lookup.
use ltntstools.Base.{ℕ, ◌<◌, ◌≡◌, ◌≢◌, ◌⊎◌, true, some, List}
use ltntstools.HashIndex.{HashIndex, contains, dead, compute_stream_hash}
use ltntstools.Item.{DiscoveredItem}
use ltntstools.Monitor.Store.{Stream, stream_of, Distinct}

-- Every object stands in the cache under the hash of its headers, every pointer of the cache is
-- dead or follows to an object of that hash, and no stream has two objects.
pub record IsConsistent (list : List DiscoveredItem) (index : HashIndex) : Type 0 where
  pub slots : index.slots ≡ 65535
  pub distinct : Distinct list
  pub hashed : (a : ℕ) (s : Stream) → stream_of a list ≡ some s → s.1 ≡ compute_stream_hash s.0
  pub inside : (a : ℕ) (s : Stream) → stream_of a list ≡ some s → s.1 < 65535
  pub indexed : (a : ℕ) (s : Stream) → stream_of a list ≡ some s → contains (index.arr s.1) a ≡ true
  pub not_null : (a : ℕ) (s : Stream) → stream_of a list ≡ some s → a ≢ 0
  pub not_dead : (a : ℕ) (s : Stream) → stream_of a list ≡ some s → a ≢ dead
  pub followed :
      (k a : ℕ)
      → contains (index.arr k) a ≡ true
      → (a ≡ dead) ⊎ ((s : Stream) × (stream_of a list ≡ some s) × (s.1 ≡ k))
  pub unique :
      (a b : ℕ) (s t : Stream)
      → stream_of a list ≡ some s
      → stream_of b list ≡ some t
      → s.0 ≡ t.0
      → a ≡ b
