-- ===== src/Keys/Session.antt =====
-- What holds over any sequence of keys, from any place of the loop, and at the end of the program.
use ltntstools.Base.{
  ◌≡◌, refl, ◌∙◌, ℕ, ◌+◌, false, List, [], ◌∷◌, ◌++◌, map, arith, ◌==◌, if◌then◌else◌, All,
  Bool-cases, inl, inr,
}
use ltntstools.Document.{Line, Memory, append, page_up, page_down}
use ltntstools.Item.{Flag, DiscoveredItem}
use ltntstools.Item.Flags.{same}
use ltntstools.Keys.{
  Context, Reading, Place, append_with_time, stats_reset, reset, keys, menu_key, cursor_key,
  apply_keys, handle, leave_menu, step, run, on_items,
}
use ltntstools.Keys.Steady.{
  Steady, Steady-toggle, Steady-hide, Steady-turn_on, Steady-turn_off, Steady-toggle_clocks,
  Steady-record_toggle, Steady-forward_toggle, Steady-if_selected, Steady-with_log, guarded_on,
}
use ltntstools.Keys.Rows.{
  Rows, Rows-refl, Rows-trans, Rows-map, Rows-select_first, Rows-select_next_from, Rows-select_prev,
}
use ltntstools.Selection.{
  turn_on, turn_off, if_selected, toggle, toggle_clocks, hide, record_toggle, forward_toggle,
  select_next, select_all, select_none, unhide_all, show_pids_toggle, show_tr101290_toggle,
  show_iats_toggle, show_streammodel_toggle, show_processes_toggle, json_probe_toggle,
  show_stream_log_toggle, show_clocks_toggle, select_hide, select_record_toggle,
  select_forward_toggle, show_stream_log_pageup, show_stream_log_pagedown,
}

-- A key that changes each selected object steadily.
Rows-selected :
    (f : DiscoveredItem → DiscoveredItem)
    → ((e : DiscoveredItem) → Steady e (f e))
    → (l : List DiscoveredItem) → Rows l (map (if_selected f) l)
Rows-selected f h = Rows-map (if_selected f) (λ e. Steady-if_selected f e (h e))

Rows-select_none : (l : List DiscoveredItem) → Rows l (select_none l)
unfolding select_none same
Rows-select_none = Rows-map (turn_off Flag.selected) (λ e. Steady-turn_off Flag.selected e refl)

-- Keys of the loop that keep the rows and the time of the start.
abbrev KeepsRows : (Reading → Context → Context) → Type 0
KeepsRows act =
    (r : Reading) (x : Context)
    → Rows x.items (act r x).items × ((act r x).start_time ≡ x.start_time)

-- A result of the loop that keeps the rows and the time of the start.
abbrev pub Kept : Context → Context → Type 0
Kept x y = Rows x.items y.items × (y.start_time ≡ x.start_time)

module _ (stamp : ℕ → Line) (message : Line) where
  logged :
      (m : Memory) (e : DiscoveredItem) (now : ℕ)
      → Steady e (append_with_time stamp m e message now)
  unfolding append_with_time
  logged m e now =
      Steady-with_log e (append m e.doc_stream_log (stamp now ++ b':' ∷ b' ' ∷ message)).0

  chosen :
      (f : DiscoveredItem → DiscoveredItem)
      → ((e : DiscoveredItem) → Steady e (f e))
      → KeepsRows (λ _. on_items (map (if_selected f)))
  chosen f h r x = (Rows-selected f h x.items, refl)

  toggled :
      (f : Flag) → guarded_on f ≡ false → KeepsRows (λ _. on_items (map (if_selected (toggle f))))
  toggled f h r x = (Rows-selected (toggle f) (λ e. Steady-toggle f e h) x.items, refl)

  keys-KeepsRows : All (λ entry. KeepsRows entry.1) (keys stamp message)
  unfolding keys reset stats_reset show_clocks_toggle select_all show_tr101290_toggle
      select_record_toggle show_processes_toggle show_pids_toggle show_iats_toggle json_probe_toggle
      show_stream_log_toggle select_hide unhide_all show_streammodel_toggle same
  keys-KeepsRows = (
    λ r x. (Rows-refl x.items, refl),
    (
      λ r x. (
        Rows-map (λ e. append_with_time stamp r.memory e message r.now)
            (λ e. logged r.memory e r.now) x.items,
        refl,
      ),
      (
        chosen toggle_clocks Steady-toggle_clocks,
        (
          λ r x. (Rows-select_none x.items, refl),
          (
            λ r x. (
              Rows-map (turn_on Flag.selected) (λ e. Steady-turn_on Flag.selected e refl) x.items,
              refl,
            ),
            (
              toggled Flag.show_tr101290 refl,
              (
                chosen record_toggle Steady-record_toggle,
                (
                  toggled Flag.show_processes refl,
                  (
                    toggled Flag.show_pids refl,
                    (
                      toggled Flag.show_iat_histogram refl,
                      (
                        toggled Flag.json_probe_active refl,
                        (
                          toggled Flag.show_stream_log refl,
                          (
                            chosen hide Steady-hide,
                            (
                              λ r x. (
                                Rows-map (turn_off Flag.hidden)
                                    (λ e. Steady-turn_off Flag.hidden e refl) x.items,
                                refl,
                              ),
                              (
                                toggled Flag.show_streammodel refl,
                                (
                                  λ r x. (Rows-refl x.items, refl),
                                  (
                                    λ r x. (Rows-refl x.items, refl),
                                    (λ r x. (Rows-refl x.items, refl), tt),
                                  ),
                                ),
                              ),
                            ),
                          ),
                        ),
                      ),
                    ),
                  ),
                ),
              ),
            ),
          ),
        ),
      ),
    ),
  )

  Kept_refl : (x : Context) → Kept x x
  Kept_refl x = (Rows-refl x.items, refl)

  Kept_trans : (x y z : Context) → Kept x y → Kept y z → Kept x z
  Kept_trans x y z p q = (Rows-trans x.items y.items z.items p.0 q.0, q.1 ∙ p.1)

  apply_keys-Kept :
      (c : ℕ) (r : Reading) (table : List (ℕ × (Reading → Context → Context))) (x : Context)
      → All (λ entry. KeepsRows entry.1) table
      → Kept x (apply_keys stamp message c r table x)
  unfolding apply_keys
  apply_keys-Kept c r [] x h = Kept_refl x
  apply_keys-Kept c r ((k, act) ∷ table) x h = elim (Bool-cases (c == k)) [
    | inl e ↦
        rw (e, apply_keys)
          (Kept_trans x (act r x) (apply_keys stamp message c r table (act r x)) (h.0 r x)
            (apply_keys-Kept c r table (act r x) h.1))
    | inr e ↦ rw (e, apply_keys) (apply_keys-Kept c r table x h.1)
  ]

  cursor_key-Kept : (c : ℕ) (x : Context) → Kept x (cursor_key stamp message c x)
  unfolding cursor_key select_next show_stream_log_pageup show_stream_log_pagedown
  cursor_key-Kept c x = ground (
    arith,
    Rows-refl x.items,
    Rows-select_prev x.items,
    Rows-select_next_from false x.items,
    Rows-select_first x.items,
    Rows-select_none x.items,
    Rows-selected (λ e. record e { doc_stream_log = page_up e.doc_stream_log })
        (λ e. Steady-with_log e (page_up e.doc_stream_log)) x.items,
    Rows-selected (λ e. record e { doc_stream_log = page_down e.doc_stream_log })
        (λ e. Steady-with_log e (page_down e.doc_stream_log)) x.items,
  )

  menu-Kept :
      (c : ℕ) (x : Context) → Kept x (leave_menu stamp message (menu_key stamp message c x) x).1
  unfolding menu_key leave_menu select_forward_toggle
  menu-Kept c x = ground (
    arith,
    Rows-refl x.items,
    Rows-selected (forward_toggle 7) (Steady-forward_toggle 7) x.items,
    Rows-selected (forward_toggle 8) (Steady-forward_toggle 8) x.items,
    Rows-selected (forward_toggle 9) (Steady-forward_toggle 9) x.items,
  )

  handle-Kept : (c : ℕ) (r : Reading) (x : Context) → Kept x (handle stamp message c r x).1
  unfolding handle
  handle-Kept c r x = elim (Bool-cases (c == b'F')) [
    | inl e ↦ rw (e, handle) (Kept_refl x)
    | inr e ↦ elim (Bool-cases (c == b'q')) [
      | inl q ↦ rw (e, q, handle) (Kept_refl x)
      | inr q ↦ rw (e, q, handle) (apply_keys-Kept c r (keys stamp message) x keys-KeepsRows)
    ]
  ]

  pub step-Kept : (p : Place) (r : Reading) (x : Context) → Kept x (step stamp message p r x).1
  unfolding step
  step-Kept Place.at_top r x = elim (Bool-cases r.running) [
    | inl e ↦ rw e (handle-Kept (if x.start_time + 2 == r.now then b'r' else r.c) r x)
    | inr e ↦ rw e (Kept_refl x)
  ]
  step-Kept Place.in_menu r x = elim (Bool-cases r.running) [
    | inl e ↦ rw e (menu-Kept r.c x)
    | inr e ↦ rw e (Kept_refl x)
  ]
  step-Kept Place.after_escape r x = Kept_refl x
  step-Kept Place.after_bracket r x = cursor_key-Kept r.c x
  step-Kept Place.ended r x = Kept_refl x

  pub run-Kept : (p : Place) (rs : List Reading) (x : Context) → Kept x (run stamp message p rs x).1
  unfolding run
  run-Kept p [] x = Kept_refl x
  run-Kept p (r ∷ rs) x =
      let next : Place × Context = step stamp message p r x in
      Kept_trans x next.1 (run stamp message next.0 rs next.1).1 (step-Kept p r x)
        (run-Kept next.0 rs next.1)

  -- Whatever keys come, from whatever place of the loop: the list keeps its objects, each at its
  -- position. Every object keeps its address, headers, payload type, hash and time of the last
  -- packet, and its flags of being recorded, being forwarded, being in error and being a duplicate:
  -- the keys only ask for recording and forwarding. And none that is being recorded becomes hidden.
  pub run-Rows :
      (p : Place) (rs : List Reading) (x : Context)
      → Rows x.items (run stamp message p rs x).1.items
  run-Rows p rs x = (run-Kept p rs x).0
