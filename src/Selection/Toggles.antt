-- ===== src/Selection/Toggles.antt =====
-- What the keys do to the flags of the selected streams.
use ltntstools.Base.{
  ◌≡◌, refl, ap₂, fun_ext, ◌||◌, ◌&&◌, not, Bool, false, List, [], ◌∷◌, map, arith, if◌then◌else◌,
  Bool-cases, inl, inr,
}
use ltntstools.Item.{Flag, DiscoveredItem, is_set}
use ltntstools.Item.Flags.{is_set-state_set, is_set-state_clr, is_set-same, same_refl, same}
use ltntstools.Selection.{
  turn_on, if_selected, toggle, toggle_clocks, hide, show_pids_toggle, show_tr101290_toggle,
  show_iats_toggle, show_streammodel_toggle, show_processes_toggle, json_probe_toggle,
  scte35_toggle, show_stream_log_toggle,
}

-- All flags of an entry.
abbrev pub flags : DiscoveredItem → Flag → Bool
flags e f = is_set e f

abbrev pub view : List DiscoveredItem → List (Flag → Bool)
view l = map flags l

is_set-toggle :
    (f g : Flag) (e : DiscoveredItem)
    → is_set (toggle f e) g ≡ (if same f g then not (is_set e f) else is_set e g)
unfolding toggle
is_set-toggle f g e = ground (arith, is_set-state_set e f g, is_set-state_clr e f g)

toggle_selected_twice :
    (f g : Flag) (e : DiscoveredItem)
    → same f Flag.selected ≡ false
    → is_set (if_selected (toggle f) (if_selected (toggle f) e)) g ≡ is_set e g
unfolding if_selected
toggle_selected_twice f g e other = elim (Bool-cases (is_set e Flag.selected)) [
  | inr u ↦ ground arith
  | inl s ↦ ground (
    arith,
    is_set-toggle f Flag.selected e,
    is_set-toggle f f e,
    is_set-toggle f g (toggle f e),
    is_set-toggle f g e,
    is_set-same f g e,
    same_refl f,
  )
]

view-toggle_twice :
    (f : Flag) (l : List DiscoveredItem)
    → same f Flag.selected ≡ false
    → view (map (if_selected (toggle f)) (map (if_selected (toggle f)) l)) ≡ view l
view-toggle_twice f [] other = refl
view-toggle_twice f (e ∷ l) other =
    ap₂ ◌∷◌ (fun_ext (λ g. toggle_selected_twice f g e other)) (view-toggle_twice f l other)

-- Each of the eight keys that turn one display over, pressed twice, leaves every flag of every
-- stream as it was.
pub toggles_twice :
    (l : List DiscoveredItem)
    → (view (show_pids_toggle (show_pids_toggle l)) ≡ view l)
      × (view (show_tr101290_toggle (show_tr101290_toggle l)) ≡ view l)
      × (view (show_iats_toggle (show_iats_toggle l)) ≡ view l)
      × (view (show_streammodel_toggle (show_streammodel_toggle l)) ≡ view l)
      × (view (show_processes_toggle (show_processes_toggle l)) ≡ view l)
      × (view (json_probe_toggle (json_probe_toggle l)) ≡ view l)
      × (view (scte35_toggle (scte35_toggle l)) ≡ view l)
      × (view (show_stream_log_toggle (show_stream_log_toggle l)) ≡ view l)
unfolding show_pids_toggle show_tr101290_toggle show_iats_toggle show_streammodel_toggle
    show_processes_toggle json_probe_toggle scte35_toggle show_stream_log_toggle same
toggles_twice l = (
  view-toggle_twice Flag.show_pids l refl,
  view-toggle_twice Flag.show_tr101290 l refl,
  view-toggle_twice Flag.show_iat_histogram l refl,
  view-toggle_twice Flag.show_streammodel l refl,
  view-toggle_twice Flag.show_processes l refl,
  view-toggle_twice Flag.json_probe_active l refl,
  view-toggle_twice Flag.show_scte35 l refl,
  view-toggle_twice Flag.show_stream_log l refl,
)

-- What `toggle_clocks` leaves of each flag.
is_set-toggle_clocks :
    (e : DiscoveredItem)
    → (is_set (toggle_clocks e) Flag.show_clocks ≡ not (is_set e Flag.show_clocks))
      × (is_set (toggle_clocks e) Flag.show_streammodel
          ≡ (is_set e Flag.show_streammodel || not (is_set e Flag.show_clocks)))
unfolding toggle_clocks same
is_set-toggle_clocks e =
    let on : DiscoveredItem = turn_on Flag.show_clocks e in
    (
      ground (
        arith,
        is_set-state_set e Flag.show_clocks Flag.show_clocks,
        is_set-state_clr e Flag.show_clocks Flag.show_clocks,
        is_set-state_set on Flag.show_streammodel Flag.show_clocks,
      ),
      ground (
        arith,
        is_set-state_set e Flag.show_clocks Flag.show_streammodel,
        is_set-state_clr e Flag.show_clocks Flag.show_streammodel,
        is_set-state_set on Flag.show_streammodel Flag.show_streammodel,
      ),
    )

-- Hidden afterwards is what was hidden, and what is selected and not being recorded.
pub is_set-hide :
    (e : DiscoveredItem)
    → is_set (if_selected hide e) Flag.hidden
      ≡ (is_set e Flag.hidden || (is_set e Flag.selected && not (is_set e Flag.pcap_recording)))
unfolding if_selected hide same
is_set-hide e = ground (arith, is_set-state_set e Flag.hidden Flag.hidden)
