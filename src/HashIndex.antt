-- ===== src/HashIndex.antt =====
-- The lookup cache of discovered items (src/hash_index.c): a table of growing arrays of pointers,
-- and the hash of a stream (src/nic_monitor_di.c). A pointer is its address, and NULL is 0.
-- The result `none` of an operation is an access outside the table that `alloc` made.
pub mod Hash
use ltntstools.Base.{
  ℕ, ◌+◌, ◌*◌, ◌%◌, ◌^◌, Bool, true, false, ◌||◌, Option, none, some, List, [], ◌∷◌, ◌++◌, map, ltb,
  leb, ◌==◌, if◌then◌else◌, length, get_elem?, bit_and, bit_or,
}
use ltntstools.Item.{Headers, ntohs, ntohl}

-- `arr k` is the array of entry k; its length is `arrLength`.
pub record HashIndex : Type 0 where
  pub slots : ℕ
  pub arr : ℕ → List ℕ

-- The pointer that a removal leaves behind.
abbrev pub dead : ℕ
dead = 0xdead

unfoldable pub alloc : HashIndex
alloc = record { slots = 65535; arr = λ _. [] }

-- The array of an entry, if the table has the entry.
unfoldable pub entry : HashIndex → ℕ → Option (List ℕ)
entry p key = if ltb key p.slots then some (p.arr key) else none

unfoldable pub store : HashIndex → ℕ → List ℕ → HashIndex
store p key items = record p { arr = λ k. if key == k then items else p.arr k }

unfoldable pub add : HashIndex → ℕ → ℕ → Option HashIndex
unfolding store entry
add p key item = elim (entry p key) [
  | none ↦ none
  | some items ↦ some (store p key (items ++ item ∷ []))
]

-- Each match is overwritten, and no entry is taken out.
unfoldable pub remove : HashIndex → ℕ → ℕ → Option HashIndex
unfolding store entry
remove p key item = elim (entry p key) [
  | none ↦ none
  | some items ↦ some (store p key (map (λ x. if x == item then dead else x) items))
]

unfoldable pub get_first : HashIndex → ℕ → Option ℕ
unfolding entry
get_first p key = elim (entry p key) [ none ↦ none | some [] ↦ some 0 | some (x ∷ _) ↦ some x ]

unfoldable pub get_count : HashIndex → ℕ → Option ℕ
unfolding entry
get_count p key = elim (entry p key) [ none ↦ none | some items ↦ some (length items) ]

-- The inner `none` is the result -1; else the pointer, and the enumerator one further on.
unfoldable pub get_enum : HashIndex → ℕ → ℕ → Option (Option (ℕ × ℕ))
unfolding entry
get_enum p key enumer = elim (entry p key) [
  | none ↦ none
  | some items ↦
      some (elim (get_elem? items enumer) [ none ↦ none | some item ↦ some (item, enumer + 1) ])
]

-- hash_index_cal_hash: a uint32_t address and a uint16_t port.
unfoldable pub cal_hash : ℕ → ℕ → ℕ
cal_hash addr port = bit_or (bit_and (addr * 16 % 2 ^ 32) 0xfff0) (bit_and port 0x000f)

-- _compute_stream_hash
unfoldable pub compute_stream_hash : Headers → ℕ
unfolding cal_hash
compute_stream_hash h = cal_hash (ntohl h.daddr) (ntohs h.dest)

-- Whether a pointer stands in an array.
unfoldable pub contains : List ℕ → ℕ → Bool
contains [] item = false
contains (x ∷ xs) item = x == item || contains xs item
