-- ===== src/Housekeeping/Alike.antt =====
-- What the first two stages keep of the list: its streams and their order.
use ltntstools.Base.{ℕ, ◌≡◌, refl, sym, ◌∙◌, ap, inl, inr, List, [], ◌∷◌, map, arith, Option-cases}
use ltntstools.HashIndex.{HashIndex}
use ltntstools.Item.{DiscoveredItem, state_set, state_clr}
use ltntstools.Monitor.{sort_key, find_addr, update_addr}
use ltntstools.Monitor.Store.{
  stream_of, Distinct, Keeps, stream_of-update_addr, update_addr-Distinct,
}
use ltntstools.Monitor.Insert.{SortedFrom}
use ltntstools.Monitor.Consistency.{IsConsistent}
use ltntstools.Monitor.Findcreate.{update_addr-SortedFrom}
use ltntstools.Housekeeping.{
  hide_stale, mark_duplicate, settle, update_duplicate, addresses, update_duplicates,
}
use ltntstools.Housekeeping.Duplicates.{fixed, fixed-settle, fixed-mark_duplicate}

-- What a stage has to keep for the consistency: which streams there are, and their order.
pub record Alike (l l' : List DiscoveredItem) : Type 0 where
  pub same_streams : (a : ℕ) → stream_of a l' ≡ stream_of a l
  pub still_distinct : Distinct l → Distinct l'
  pub still_sorted : (b : ℕ) → SortedFrom b l → SortedFrom b l'

module _ (f : DiscoveredItem → DiscoveredItem)
    (keeps : (e : DiscoveredItem) → fixed (f e) ≡ fixed e) where
  stream_of-map : (a : ℕ) (l : List DiscoveredItem) → stream_of a (map f l) ≡ stream_of a l
  unfolding stream_of
  stream_of-map a [] = refl
  stream_of-map a (e ∷ l) = ground (arith, keeps e, stream_of-map a l)

  map-Distinct : (l : List DiscoveredItem) → Distinct l → Distinct (map f l)
  map-Distinct [] d = tt
  map-Distinct (e ∷ l) d = ground (arith, keeps e, stream_of-map e.addr l, map-Distinct l d.1)

  map-SortedFrom : (b : ℕ) (l : List DiscoveredItem) → SortedFrom b l → SortedFrom b (map f l)
  map-SortedFrom b [] s = tt
  map-SortedFrom b (e ∷ l) s = ground (arith, keeps e, map-SortedFrom (sort_key e.headers) l s.1)

  map-Alike : (l : List DiscoveredItem) → Alike l (map f l)
  map-Alike l = record {
    same_streams = λ a. stream_of-map a l;
    still_distinct = map-Distinct l;
    still_sorted = λ b. map-SortedFrom b l;
  }

  fixed-Keeps : Keeps f
  fixed-Keeps = record {
    same_addr = λ e. ap (λ t. t.0) (keeps e);
    same_headers = λ e. ap (λ t. t.1) (keeps e);
    same_key = λ e. ap (λ t. t.3) (keeps e);
  }

  update_addr-Alike : (a : ℕ) (l : List DiscoveredItem) → Alike l (update_addr a f l)
  update_addr-Alike a l = record {
    same_streams = λ b. stream_of-update_addr fixed-Keeps b a l;
    still_distinct = update_addr-Distinct fixed-Keeps a l;
    still_sorted = λ b. update_addr-SortedFrom fixed-Keeps a b l;
  }

Alike-refl : (l : List DiscoveredItem) → Alike l l
Alike-refl l = record { same_streams = λ a. refl; still_distinct = λ d. d; still_sorted = λ b s. s }

Alike-trans : {l m n : List DiscoveredItem} → Alike l m → Alike m n → Alike l n
Alike-trans h k = record {
  same_streams = λ a. k.same_streams a ∙ h.same_streams a;
  still_distinct = λ d. k.still_distinct (h.still_distinct d);
  still_sorted = λ b s. k.still_sorted b (h.still_sorted b s);
}

update_duplicate-Alike : (now a : ℕ) (l : List DiscoveredItem) → Alike l (update_duplicate now a l)
unfolding update_duplicate
update_duplicate-Alike now a l = elim (Option-cases (find_addr a l)) [
  | inl free ↦ rw (free, update_duplicate) (Alike-refl l)
  | inr (e, there) ↦
      rw (there, update_duplicate)
        (Alike-trans (map-Alike (mark_duplicate now e) (fixed-mark_duplicate now e) l)
          (update_addr-Alike (settle now _ _) (fixed-settle now _ _) a _))
]

update_duplicates-Alike :
    (now : ℕ) (todo : List ℕ) (l : List DiscoveredItem) → Alike l (update_duplicates now todo l)
unfolding update_duplicates
update_duplicates-Alike now [] l = Alike-refl l
update_duplicates-Alike now (a ∷ todo) l =
    Alike-trans (update_duplicate-Alike now a l) (update_duplicates-Alike now todo _)

pub fixed-hide_stale : (now : ℕ) (e : DiscoveredItem) → fixed (hide_stale now e) ≡ fixed e
unfolding hide_stale state_set state_clr
fixed-hide_stale now e = ground arith

-- The list as the third stage finds it.
unfoldable pub flagged : ℕ → List DiscoveredItem → List DiscoveredItem
flagged now l = update_duplicates now (addresses l) (map (hide_stale now) l)

pub flagged-Alike : (now : ℕ) (l : List DiscoveredItem) → Alike l (flagged now l)
unfolding flagged
flagged-Alike now l =
    Alike-trans (map-Alike (hide_stale now) (fixed-hide_stale now) l)
      (update_duplicates-Alike now (addresses l) (map (hide_stale now) l))

pub Alike-IsConsistent :
    {l l' : List DiscoveredItem} {p : HashIndex} → Alike l l' → IsConsistent l p → IsConsistent l' p
Alike-IsConsistent k c = record {
  slots = c.slots;
  distinct = k.still_distinct c.distinct;
  hashed = λ a s at. c.hashed a s (sym (k.same_streams a) ∙ at);
  inside = λ a s at. c.inside a s (sym (k.same_streams a) ∙ at);
  indexed = λ a s at. c.indexed a s (sym (k.same_streams a) ∙ at);
  not_null = λ a s at. c.not_null a s (sym (k.same_streams a) ∙ at);
  not_dead = λ a s at. c.not_dead a s (sym (k.same_streams a) ∙ at);
  followed = λ j a among. elim (c.followed j a among) [
    | inl is_dead ↦ inl is_dead
    | inr (s, at, key) ↦ inr (s, k.same_streams a ∙ at, key)
  ];
  unique =
      λ a b s t at bt. c.unique a b s t (sym (k.same_streams a) ∙ at) (sym (k.same_streams b) ∙ bt);
}
