-- ===== src/Selection/Cursor.antt =====
-- Where the cursor goes: discovered_items_select_next.
use ltntstools.Base.{
  ◌≡◌, refl, ap, ◌∙◌, ◌⊎◌, ◌||◌, not, Bool, true, false, List, [], ◌∷◌, ◌++◌, arith, All,
  Bool-cases, inl, inr,
}
use ltntstools.Item.{Flag, DiscoveredItem, is_set}
use ltntstools.Item.Flags.{is_set-state_clr, same}
use ltntstools.Selection.{turn_on, turn_off, deselect_unless_last, select_next_from, select_next}

abbrev pub IsHidden : DiscoveredItem → Type 0
IsHidden e = is_set e Flag.hidden ≡ true

abbrev pub IsVisible : DiscoveredItem → Type 0
IsVisible e = is_set e Flag.hidden ≡ false

abbrev pub IsSelected : DiscoveredItem → Type 0
IsSelected e = is_set e Flag.selected ≡ true

-- An entry that the cursor passes: hidden, or not selected.
abbrev pub Passed : DiscoveredItem → Type 0
Passed e = (is_set e Flag.hidden || not (is_set e Flag.selected)) ≡ true

next_skips :
    (pre rest : List DiscoveredItem)
    → All Passed pre
    → select_next_from false (pre ++ rest) ≡ pre ++ select_next_from false rest
unfolding select_next_from
next_skips [] rest p = refl
next_skips (e ∷ pre) rest p = ground (arith, next_skips pre rest p.1)

next_hidden :
    (b : Bool) (mid rest : List DiscoveredItem)
    → All IsHidden mid
    → select_next_from b (mid ++ rest) ≡ mid ++ select_next_from b rest
unfolding select_next_from
next_hidden b [] rest p = refl
next_hidden b (e ∷ mid) rest p = ground (arith, next_hidden b mid rest p.1)

not_last :
    (mid : List DiscoveredItem) (f e : DiscoveredItem) (post : List DiscoveredItem)
    → deselect_unless_last (mid ++ f ∷ post) e ≡ turn_off Flag.selected e
unfolding deselect_unless_last
not_last [] f e post = refl
not_last (m ∷ mid) f e post = refl

-- The cursor moves from the first selected visible entry to the next visible one, over the hidden
-- entries between them; nothing else changes.
pub select_next_moves :
    (pre mid post : List DiscoveredItem) (e f : DiscoveredItem)
    → All Passed pre
    → IsVisible e
    → IsSelected e
    → All IsHidden mid
    → IsVisible f
    → is_set f Flag.selected ≡ false
    → select_next (pre ++ e ∷ (mid ++ f ∷ post))
      ≡ pre ++ turn_off Flag.selected e ∷ (mid ++ turn_on Flag.selected f ∷ post)
unfolding select_next select_next_from
select_next_moves pre mid post e f passed shown chosen hid shown' free =
    next_skips pre (e ∷ (mid ++ f ∷ post)) passed
    ∙ ap (◌++◌ pre) (ground (arith, not_last mid f e post, next_hidden true mid (f ∷ post) hid))

next_end : (hid : List DiscoveredItem) → All IsHidden hid → select_next_from true hid ≡ hid
unfolding select_next_from
next_end [] p = refl
next_end (e ∷ hid) p = ground (arith, next_end hid p.1)

-- Where the cursor is the last entry of the list, nothing changes.
pub select_next_stays :
    (pre : List DiscoveredItem) (e : DiscoveredItem)
    → All Passed pre
    → IsVisible e
    → IsSelected e
    → select_next (pre ++ e ∷ []) ≡ pre ++ e ∷ []
unfolding select_next select_next_from deselect_unless_last
select_next_stays pre e passed shown chosen =
    next_skips pre (e ∷ []) passed ∙ ap (◌++◌ pre) (ground arith)

-- Where the entries after the cursor are hidden, all of them, it is lost: it is cleared since it is
-- not the end of the list, and no other entry is selected.
pub select_next_loses :
    (pre hid : List DiscoveredItem) (e h : DiscoveredItem)
    → All Passed pre
    → IsVisible e
    → IsSelected e
    → All IsHidden (h ∷ hid)
    → select_next (pre ++ e ∷ h ∷ hid) ≡ pre ++ turn_off Flag.selected e ∷ h ∷ hid
unfolding select_next select_next_from deselect_unless_last
select_next_loses pre hid e h passed shown chosen hidden =
    next_skips pre (e ∷ h ∷ hid) passed ∙ ap (◌++◌ pre) (ground (arith, next_end hid hidden.1))

-- No selected entry is visible.
abbrev pub NoCursor : List DiscoveredItem → Type 0
NoCursor l = All Passed l

-- At most one selected entry is visible.
abbrev pub OneCursor : List DiscoveredItem → Type 0
OneCursor [] = Unit {0}
OneCursor (e ∷ rest) = (Passed e × OneCursor rest) ⊎ NoCursor rest

NoCursor-OneCursor : (l : List DiscoveredItem) → NoCursor l → OneCursor l
NoCursor-OneCursor [] p = tt
NoCursor-OneCursor (e ∷ l) p = inr p.1

next_one : (l : List DiscoveredItem) → NoCursor l → OneCursor (select_next_from true l)
unfolding select_next_from
next_one [] p = tt
next_one (e ∷ l) p = elim (Bool-cases (is_set e Flag.hidden)) [
  | inl h ↦ rw (h, select_next_from) (inl (rw h, next_one l p.1))
  | inr v ↦ elim (Bool-cases (is_set e Flag.selected)) [
    | inl s ↦ ground (arith, p.0)
    | inr u ↦ rw (v, u, select_next_from) (inr p.1)
  ]
]

last_Passed :
    (rest : List DiscoveredItem) (e : DiscoveredItem)
    → ((rest ≡ []) × (deselect_unless_last rest e ≡ e)) ⊎ Passed (deselect_unless_last rest e)
unfolding deselect_unless_last same
last_Passed [] e = inl (refl, refl)
last_Passed (r ∷ rest) e = inr (ground (arith, is_set-state_clr e Flag.selected Flag.selected))

OneCursor-tail : (e : DiscoveredItem) (l : List DiscoveredItem) → OneCursor (e ∷ l) → OneCursor l
OneCursor-tail e l (inl (_, q)) = q
OneCursor-tail e l (inr q) = NoCursor-OneCursor l q

at_cursor :
    (e : DiscoveredItem) (l : List DiscoveredItem)
    → OneCursor (e ∷ l)
    → IsVisible e
    → IsSelected e
    → NoCursor l
at_cursor e l (inl (p, _)) v s = absurd (ground (arith, p, v, s))
at_cursor e l (inr q) v s = q

next_from_cursor :
    (e : DiscoveredItem) (l : List DiscoveredItem)
    → NoCursor l
    → OneCursor (deselect_unless_last l e ∷ select_next_from true l)
next_from_cursor e l p = elim (last_Passed l e) [
  | inl (last, _) ↦ rw last (unfold select_next_from in inr tt)
  | inr passed ↦ inl (passed, next_one l p)
]

-- A list with at most one visible selected entry has at most one after the move.
next_keeps_one : (l : List DiscoveredItem) → OneCursor l → OneCursor (select_next_from false l)
unfolding select_next_from
next_keeps_one [] p = tt
next_keeps_one (e ∷ l) p =
    let rest : OneCursor (select_next_from false l) = next_keeps_one l (OneCursor-tail e l p) in
    elim (Bool-cases (is_set e Flag.hidden)) [
      | inl h ↦ rw (h, select_next_from) (inl (rw h, rest))
      | inr v ↦ elim (Bool-cases (is_set e Flag.selected)) [
        | inl s ↦ rw (v, s, select_next_from) (next_from_cursor e l (at_cursor e l p v s))
        | inr u ↦ rw (v, u, select_next_from) (inl (rw (v, u), rest))
      ]
    ]

-- Where at most one of the visible entries is selected, at most one is after a move.
pub select_next-OneCursor : (l : List DiscoveredItem) → OneCursor l → OneCursor (select_next l)
unfolding select_next
select_next-OneCursor l p = next_keeps_one l p
