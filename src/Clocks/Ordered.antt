-- ===== src/Clocks/Ordered.antt =====
-- The ordered list of time stamps after any insertions.
use ltntstools.Base.{
  ◌≡◌, refl, sym, ◌∙◌, subst, inl, inr, Bool, true, false, none, some, List, [], ◌∷◌, ◌++◌,
  if◌then◌else◌, Bool-cases, All, All-append,
}
use mathlib.Core.Bool.{true≢false}
use mathlib.Core.List.{Perm, perm_middle, perm_append_singleton, append-nil}
use mathlib.Core.List.Perm
use ltntstools.Statistics.{ℤ, leb_ℤ}
use ltntstools.Statistics.Marks.{◌≤ℤ◌, ≤ℤ_trans, ≤ℤ_total}
use ltntstools.Clocks.{ClockItem, insert_after, ordered_clock_insert, ordered_clock_inserts}

-- From the tail on, no item is later than the one before it.
abbrev pub IsDescending : List ClockItem → Type 0
IsDescending [] = Unit
IsDescending (i ∷ l) = All (λ j. j.clock ≤ℤ i.clock) l × IsDescending l

-- The items that are not earlier than the first.
unfoldable pub not_before : ClockItem → List ClockItem → List ClockItem
not_before x [] = []
not_before x (i ∷ l) = if leb_ℤ x.clock i.clock then i ∷ not_before x l else not_before x l

-- Insertion into a list in which every place is found.
unfoldable place : ClockItem → List ClockItem → List ClockItem
place e [] = e ∷ []
place e (i ∷ l) = if leb_ℤ i.clock e.clock then e ∷ i ∷ l else i ∷ place e l

unfoldable places : List ClockItem → List ClockItem → List ClockItem
unfolding place
places l [] = l
places l (e ∷ rest) = places (place e l) rest

place-Perm_at :
    (b : Bool) (e i : ClockItem) (l : List ClockItem)
    → Perm (place e l) (e ∷ l)
    → Perm (if b then e ∷ i ∷ l else i ∷ place e l) (e ∷ i ∷ l)
place-Perm_at true e i l ih = Perm.refl (e ∷ i ∷ l)
place-Perm_at false e i l ih = Perm.trans (Perm.cons i ih) (Perm.swap e i l)

place-Perm : (e : ClockItem) (l : List ClockItem) → Perm (place e l) (e ∷ l)
unfolding place
place-Perm e [] = Perm.refl (e ∷ [])
place-Perm e (i ∷ l) = place-Perm_at (leb_ℤ i.clock e.clock) e i l (place-Perm e l)

places-Perm : (rest l : List ClockItem) → Perm (places l rest) (rest ++ l)
unfolding places
places-Perm [] l = Perm.refl l
places-Perm (e ∷ rest) l =
    Perm.trans (places-Perm rest (place e l))
      (Perm.trans (Perm.append_left rest (place-Perm e l)) (perm_middle rest l))

-- What holds of the new item and of the list holds of the longer list.
place-All :
    (P : ClockItem → Type 0) (e : ClockItem) (l : List ClockItem)
    → P e
    → All P l
    → All P (place e l)
unfolding place
place-All P e [] pe pl = (pe, tt)
place-All P e (i ∷ l) pe pl = elim (Bool-cases (leb_ℤ i.clock e.clock)) [
  | inl h ↦ rw h (pe, pl)
  | inr h ↦ rw h (pl.0, place-All P e l pe pl.1)
]

All-≤ℤ :
    (a b : ℤ) (l : List ClockItem) → a ≤ℤ b → All (λ j. j.clock ≤ℤ a) l → All (λ j. j.clock ≤ℤ b) l
All-≤ℤ a b [] h all = tt
All-≤ℤ a b (j ∷ l) h all = (≤ℤ_trans j.clock a b all.0 h, All-≤ℤ a b l h all.1)

place-IsDescending_at :
    (b : Bool) (e i : ClockItem) (l : List ClockItem)
    → leb_ℤ i.clock e.clock ≡ b
    → IsDescending (i ∷ l)
    → IsDescending (place e l)
    → IsDescending (if b then e ∷ i ∷ l else i ∷ place e l)
place-IsDescending_at true e i l h d ih = ((h, All-≤ℤ i.clock e.clock l h d.0), d)
place-IsDescending_at false e i l h d ih =
    (place-All (λ j. j.clock ≤ℤ i.clock) e l (≤ℤ_total i.clock e.clock h) d.0, ih)

place-IsDescending :
    (e : ClockItem) (l : List ClockItem) → IsDescending l → IsDescending (place e l)
unfolding place
place-IsDescending e [] d = (tt, tt)
place-IsDescending e (i ∷ l) d =
    place-IsDescending_at (leb_ℤ i.clock e.clock) e i l refl d (place-IsDescending e l d.1)

places-IsDescending : (rest l : List ClockItem) → IsDescending l → IsDescending (places l rest)
unfolding places
places-IsDescending [] l d = d
places-IsDescending (e ∷ rest) l d = places-IsDescending rest (place e l) (place-IsDescending e l d)

-- The search finds a place before the first item, unless the new item is earlier than every one.
insert_after-place :
    (x e : ClockItem) (l : List ClockItem)
    → x.clock ≤ℤ e.clock
    → insert_after e (l ++ (x ∷ [])) ≡ some (place e l ++ (x ∷ []))
unfolding insert_after place
insert_after-place x e [] h = rw h refl
insert_after-place x e (i ∷ l) h = elim (Bool-cases (leb_ℤ i.clock e.clock)) [
  | inl later ↦ rw later refl
  | inr earlier ↦ rw (earlier, insert_after-place x e l h) refl
]

insert_after-none :
    (e : ClockItem) (l : List ClockItem)
    → All (λ i. leb_ℤ i.clock e.clock ≡ false) l
    → insert_after e l ≡ none
unfolding insert_after
insert_after-none e [] all = refl
insert_after-none e (i ∷ l) all = rw (all.0, insert_after-none e l all.1) refl

ordered_clock_insert_lem :
    (e : ClockItem) (l : List ClockItem) (x : ClockItem)
    → ordered_clock_insert (l ++ (x ∷ [])) e
      ≡ elim (insert_after e (l ++ (x ∷ []))) [ none ↦ l ++ (x ∷ []) | some m ↦ m ]
unfolding ordered_clock_insert
ordered_clock_insert_lem e [] x = refl
ordered_clock_insert_lem e (i ∷ l) x = refl

-- Earlier than the first item is earlier than all.
≤ℤ-false : (x i e : ℤ) → x ≤ℤ i → leb_ℤ x e ≡ false → leb_ℤ i e ≡ false
≤ℤ-false x i e h less = elim (Bool-cases (leb_ℤ i e)) [
  | inl le ↦ absurd (true≢false (sym (≤ℤ_trans x i e h le) ∙ less))
  | inr later ↦ later
]

All-false :
    (x e : ClockItem) (l : List ClockItem)
    → All (λ i. x.clock ≤ℤ i.clock) l
    → leb_ℤ x.clock e.clock ≡ false
    → All (λ i. leb_ℤ i.clock e.clock ≡ false) (l ++ (x ∷ []))
All-false x e [] all less = (less, tt)
All-false x e (i ∷ l) all less =
    (≤ℤ-false x.clock i.clock e.clock all.0 less, All-false x e l all.1 less)

inserts-places :
    (x : ClockItem) (rest l : List ClockItem)
    → All (λ i. x.clock ≤ℤ i.clock) l
    → ordered_clock_inserts (l ++ (x ∷ [])) rest ≡ places l (not_before x rest) ++ (x ∷ [])
unfolding ordered_clock_inserts not_before places
inserts-places x [] l all = refl
inserts-places x (e ∷ rest) l all = elim (Bool-cases (leb_ℤ x.clock e.clock)) [
  | inl h ↦
      rw (h, ordered_clock_insert_lem e l x, insert_after-place x e l h)
        (inserts-places x rest (place e l) (place-All (λ i. x.clock ≤ℤ i.clock) e l h all))
  | inr less ↦
      rw
        (
          less,
          ordered_clock_insert_lem e l x,
          insert_after-none e (l ++ (x ∷ [])) (All-false x e l all less),
        )
        (inserts-places x rest l all)
]

not_before-All :
    (x : ClockItem) (rest l : List ClockItem)
    → All (λ i. x.clock ≤ℤ i.clock) l
    → All (λ i. x.clock ≤ℤ i.clock) (places l (not_before x rest))
unfolding not_before places
not_before-All x [] l all = all
not_before-All x (e ∷ rest) l all = elim (Bool-cases (leb_ℤ x.clock e.clock)) [
  | inl h ↦ rw h (not_before-All x rest (place e l) (place-All (λ i. x.clock ≤ℤ i.clock) e l h all))
  | inr less ↦ rw less (not_before-All x rest l all)
]

append-IsDescending :
    (x : ClockItem) (l : List ClockItem)
    → All (λ i. x.clock ≤ℤ i.clock) l
    → IsDescending l
    → IsDescending (l ++ (x ∷ []))
append-IsDescending x [] all d = (tt, tt)
append-IsDescending x (i ∷ l) all d = (
  All-append (λ j. j.clock ≤ℤ i.clock) l (x ∷ []) d.0 (all.0, tt),
  append-IsDescending x l all.1 d.1,
)

-- Whatever is inserted, the list is in order, and it holds, each as often as it was inserted, the
-- first item and the later insertions that are not earlier than the first. The others are lost.
pub inserts-kept :
    (x : ClockItem) (rest : List ClockItem)
    → IsDescending (ordered_clock_inserts [] (x ∷ rest))
      × Perm (ordered_clock_inserts [] (x ∷ rest)) (x ∷ not_before x rest)
unfolding ordered_clock_inserts ordered_clock_insert
inserts-kept x rest =
    let kept = places [] (not_before x rest) in
    rw (inserts-places x rest [] tt) (
      append-IsDescending x kept (not_before-All x rest [] tt)
          (places-IsDescending (not_before x rest) [] tt),
      Perm.trans (perm_append_singleton x kept) (
          Perm.cons x (
            subst (λ l. Perm kept l) (append-nil (not_before x rest))
              (places-Perm (not_before x rest) []))),
    )
