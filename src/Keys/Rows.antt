-- ===== src/Keys/Rows.antt =====
-- No key changes more of the list than its objects, each of them steadily.
use ltntstools.Base.{
  refl, Bool, true, false, List, [], ◌∷◌, ◌++◌, map, arith, inl, inr, Bool-cases, subst,
}
use mathlib.Core.List.{append_assoc, append-nil}
use ltntstools.Item.{Flag, DiscoveredItem, is_set}
use ltntstools.Item.Flags.{same}
use ltntstools.Keys.Steady.{Steady, Steady-refl, Steady-trans, Steady-turn_on, Steady-turn_off}
use ltntstools.Selection.{
  turn_on, turn_off, select_next_from, select_prev_after, select_prev, select_first,
  deselect_unless_last,
}

-- Two lists of the same subst, with a steady change at each position.
abbrev pub Rows : List DiscoveredItem → List DiscoveredItem → Type 0
Rows [] [] = Unit {0}
Rows [] (_ ∷ _) = ⊥
Rows (_ ∷ _) [] = ⊥
Rows (e ∷ l) (e' ∷ l') = Steady e e' × Rows l l'

pub Rows-refl : (l : List DiscoveredItem) → Rows l l
Rows-refl [] = tt
Rows-refl (e ∷ l) = (Steady-refl e, Rows-refl l)

pub Rows-trans : (k l m : List DiscoveredItem) → Rows k l → Rows l m → Rows k m
Rows-trans [] [] [] p q = tt
Rows-trans [] [] (c ∷ m) p q = elim q [ ]
Rows-trans [] (b ∷ l) m p q = elim p [ ]
Rows-trans (a ∷ k) [] m p q = elim p [ ]
Rows-trans (a ∷ k) (b ∷ l) [] p q = elim q [ ]
Rows-trans (a ∷ k) (b ∷ l) (c ∷ m) p q = (Steady-trans p.0 q.0, Rows-trans k l m p.1 q.1)

pub Rows-append :
    (k k' l l' : List DiscoveredItem) → Rows k k' → Rows l l' → Rows (k ++ l) (k' ++ l')
Rows-append [] [] l l' p q = q
Rows-append [] (b ∷ k') l l' p q = elim p [ ]
Rows-append (a ∷ k) [] l l' p q = elim p [ ]
Rows-append (a ∷ k) (b ∷ k') l l' p q = (p.0, Rows-append k k' l l' p.1 q)

pub Rows-map :
    (f : DiscoveredItem → DiscoveredItem)
    → ((e : DiscoveredItem) → Steady e (f e))
    → (l : List DiscoveredItem) → Rows l (map f l)
Rows-map f h [] = tt
Rows-map f h (e ∷ l) = (h e, Rows-map f h l)

select : (e : DiscoveredItem) → Steady e (turn_on Flag.selected e)
unfolding same
select e = Steady-turn_on Flag.selected e refl

deselect : (e : DiscoveredItem) → Steady e (turn_off Flag.selected e)
unfolding same
deselect e = Steady-turn_off Flag.selected e refl

pub Rows-select_first : (l : List DiscoveredItem) → Rows l (select_first l)
unfolding select_first
Rows-select_first [] = tt
Rows-select_first (e ∷ l) = (select e, Rows-refl l)

Steady-deselect_unless_last :
    (l : List DiscoveredItem) (e : DiscoveredItem) → Steady e (deselect_unless_last l e)
unfolding deselect_unless_last
Steady-deselect_unless_last [] e = Steady-refl e
Steady-deselect_unless_last (_ ∷ _) e = deselect e

pub Rows-select_next_from : (b : Bool) (l : List DiscoveredItem) → Rows l (select_next_from b l)
unfolding select_next_from
Rows-select_next_from b [] = tt
Rows-select_next_from b (e ∷ l) = ground (
  arith,
  Steady-refl e,
  select e,
  Rows-refl l,
  Steady-deselect_unless_last l e,
  Rows-select_next_from b l,
  Rows-select_next_from true l,
  Rows-select_next_from false l,
)

pub Rows-select_prev_after :
    (p : DiscoveredItem) (between rest : List DiscoveredItem)
    → Rows (p ∷ (between ++ rest)) (select_prev_after p between rest)
unfolding select_prev_after
Rows-select_prev_after p between [] = rw (append-nil between) (Rows-refl (p ∷ between))
Rows-select_prev_after p between (e ∷ rest) = elim (Bool-cases (is_set e Flag.hidden)) [
  | inl h ↦
      rw (h, select_prev_after)
        (subst (λ l. Rows (p ∷ l) (select_prev_after p (between ++ e ∷ []) rest))
          (append_assoc between (e ∷ []) rest) (Rows-select_prev_after p (between ++ e ∷ []) rest))
  | inr v ↦ elim (Bool-cases (is_set e Flag.selected)) [
    | inl s ↦
        rw (v, s, select_prev_after)
          (
            select p,
            Rows-append between between (e ∷ rest) (turn_off Flag.selected e ∷ rest)
                (Rows-refl between) (deselect e, Rows-refl rest),
          )
    | inr u ↦
        rw (v, u, select_prev_after)
          (
            Steady-refl p,
            Rows-append between between (e ∷ rest) (select_prev_after e [] rest) (Rows-refl between)
                (Rows-select_prev_after e [] rest),
          )
  ]
]

pub Rows-select_prev : (l : List DiscoveredItem) → Rows l (select_prev l)
unfolding select_prev
Rows-select_prev [] = tt
Rows-select_prev (e ∷ l) = elim (Bool-cases (is_set e Flag.hidden)) [
  | inl h ↦ rw (h, select_prev) (Steady-refl e, Rows-select_prev l)
  | inr v ↦ rw (v, select_prev) (Rows-select_prev_after e [] l)
]
