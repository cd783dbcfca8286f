-- ===== src/Selection/Previous.antt =====
-- Where the cursor goes backwards: discovered_items_select_prev.
use ltntstools.Base.{◌≡◌, ap, ◌∙◌, false, List, [], ◌∷◌, ◌++◌, arith, All, Bool-cases, inl, inr}
use mathlib.Core.List.{append-nil, append_assoc}
use ltntstools.Item.{Flag, DiscoveredItem, is_set}
use ltntstools.Selection.{turn_on, turn_off, select_prev_after, select_prev}
use ltntstools.Selection.Cursor.{IsHidden, IsVisible, IsSelected, Passed}

prev_hidden :
    (p : DiscoveredItem) (between mid rest : List DiscoveredItem)
    → All IsHidden mid
    → select_prev_after p between (mid ++ rest) ≡ select_prev_after p (between ++ mid) rest
unfolding select_prev_after
prev_hidden p between [] rest h = rw append-nil
prev_hidden p between (e ∷ mid) rest h =
    rw (h.0, select_prev_after)
      (prev_hidden p (between ++ e ∷ []) mid rest h.1
        ∙ ap (λ l. select_prev_after p l rest) (append_assoc between (e ∷ []) mid))

-- The step back of the cursor, from the entry `p` that the loop holds.
prev_held :
    (p : DiscoveredItem) (between mid post : List DiscoveredItem) (e : DiscoveredItem)
    → All IsHidden mid
    → IsVisible e
    → IsSelected e
    → select_prev_after p between (mid ++ e ∷ post)
      ≡ turn_on Flag.selected p ∷ ((between ++ mid) ++ turn_off Flag.selected e ∷ post)
unfolding select_prev_after
prev_held p between mid post e h v s = prev_hidden p between mid (e ∷ post) h ∙ ground arith

-- The entries that lie before the one to select: each is hidden or not selected.
prev_skips_held :
    (q p : DiscoveredItem) (between pre mid post : List DiscoveredItem) (e : DiscoveredItem)
    → All Passed pre
    → IsVisible p
    → is_set p Flag.selected ≡ false
    → All IsHidden mid
    → IsVisible e
    → IsSelected e
    → select_prev_after q between (pre ++ p ∷ (mid ++ e ∷ post))
      ≡ q ∷ (between ++ (pre ++ turn_on Flag.selected p ∷ (mid ++ turn_off Flag.selected e ∷ post)))
unfolding select_prev_after
prev_skips_held q p between [] mid post e passed vp up hid v s =
    rw (vp, up, select_prev_after)
      (ap (λ l. q ∷ (between ++ l)) (prev_held p [] mid post e hid v s))
prev_skips_held q p between (x ∷ pre) mid post e passed vp up hid v s =
    elim (Bool-cases (is_set x Flag.hidden)) [
      | inl h ↦
          rw (h, select_prev_after)
            (prev_skips_held q p (between ++ x ∷ []) pre mid post e passed.1 vp up hid v s
              ∙ ap (λ l. q ∷ l) (append_assoc between (x ∷ []) _))
      | inr w ↦
          let u : is_set x Flag.selected ≡ false = ground (arith, passed.0) in
          rw (w, u, select_prev_after)
            (ap (λ l. q ∷ (between ++ l))
              (prev_skips_held x p [] pre mid post e passed.1 vp up hid v s))
    ]

-- The cursor moves back from the first selected visible entry to the visible one before it, over
-- the hidden entries between them; nothing else changes.
pub select_prev_moves :
    (pre mid post : List DiscoveredItem) (p e : DiscoveredItem)
    → All Passed pre
    → IsVisible p
    → is_set p Flag.selected ≡ false
    → All IsHidden mid
    → IsVisible e
    → IsSelected e
    → select_prev (pre ++ p ∷ (mid ++ e ∷ post))
      ≡ pre ++ turn_on Flag.selected p ∷ (mid ++ turn_off Flag.selected e ∷ post)
unfolding select_prev
select_prev_moves [] mid post p e passed vp up hid v s =
    rw (vp, select_prev) (prev_held p [] mid post e hid v s)
select_prev_moves (x ∷ pre) mid post p e passed vp up hid v s =
    elim (Bool-cases (is_set x Flag.hidden)) [
      | inl h ↦
          rw (h, select_prev)
            (ap (λ l. x ∷ l) (select_prev_moves pre mid post p e passed.1 vp up hid v s))
      | inr w ↦ rw (w, select_prev) (prev_skips_held x p [] pre mid post e passed.1 vp up hid v s)
    ]
