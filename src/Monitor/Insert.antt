-- ===== src/Monitor/Insert.antt =====
-- The insertion, discovered_item_insert: the order of the list and the objects in it.
use ltntstools.Base.{ℕ, ◌≤◌, ◌≡◌, refl, none, some, List, [], ◌∷◌, arith, ◌==◌, if◌then◌else◌}
use ltntstools.Item.{DiscoveredItem, state_set}
use ltntstools.Monitor.{insert, sort_key}
use ltntstools.Monitor.Store.{stream, stream_of, Distinct}

abbrev pub SortedFrom : ℕ → List DiscoveredItem → Type 0
SortedFrom b [] = Unit {0}
SortedFrom b (e ∷ rest) = (b ≤ sort_key e.headers) × SortedFrom (sort_key e.headers) rest

-- A list that is sorted by the key.
pub insert-SortedFrom :
    (di : DiscoveredItem) (b : ℕ) (l : List DiscoveredItem)
    → b ≤ sort_key di.headers
    → SortedFrom b l
    → SortedFrom b (insert di l)
unfolding insert state_set
insert-SortedFrom di b [] h s = (h, tt)
insert-SortedFrom di b (e ∷ rest) h s =
    ground (arith, insert-SortedFrom di (sort_key e.headers) rest)

pub stream_of-insert :
    (di : DiscoveredItem) (a : ℕ) (l : List DiscoveredItem)
    → stream_of di.addr l ≡ none
    → stream_of a (insert di l) ≡ (if di.addr == a then some (stream di) else stream_of a l)
unfolding insert state_set stream_of
stream_of-insert di a [] free = refl
stream_of-insert di a (e ∷ rest) free = ground (arith, stream_of-insert di a rest)

pub insert-Distinct :
    (di : DiscoveredItem) (l : List DiscoveredItem)
    → stream_of di.addr l ≡ none
    → Distinct l
    → Distinct (insert di l)
unfolding insert state_set stream_of
insert-Distinct di [] free d = (refl, tt)
insert-Distinct di (e ∷ rest) free d =
    ground (arith, insert-Distinct di rest, stream_of-insert di e.addr rest)
