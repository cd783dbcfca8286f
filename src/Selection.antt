-- ===== src/Selection.antt =====
-- The operator's selection in nic_monitor, and what a key does to the selected streams
-- (discovered_items_select_* and others in src/nic_monitor_di.c). Each function takes the list of
-- discovered items, `ctx->list`, and returns it as the function leaves it.
pub mod Cursor
pub mod Previous
pub mod Toggles
mod Tests
use ltntstools.Base.{ℕ, Bool, true, false, ◌||◌, not, List, [], ◌∷◌, ◌++◌, map, if◌then◌else◌}
use ltntstools.Document.{page_up, page_down}
use ltntstools.Item.{Flag, DiscoveredItem, mask, state_set, state_clr, is_set}

abbrev pub turn_on : Flag → DiscoveredItem → DiscoveredItem
turn_on f e = state_set e (mask f)

abbrev pub turn_off : Flag → DiscoveredItem → DiscoveredItem
turn_off f e = state_clr e (mask f)

-- discovered_items_select_first: the loop breaks after the first entry.
unfoldable pub select_first : List DiscoveredItem → List DiscoveredItem
select_first [] = []
select_first (e ∷ rest) = turn_on Flag.selected e ∷ rest

-- The selected entry is cleared if another one follows in the list.
unfoldable pub deselect_unless_last : List DiscoveredItem → DiscoveredItem → DiscoveredItem
deselect_unless_last [] e = e
deselect_unless_last (_ ∷ _) e = turn_off Flag.selected e

-- discovered_items_select_next, with its variable `doSelect`.
unfoldable pub select_next_from : Bool → List DiscoveredItem → List DiscoveredItem
unfolding deselect_unless_last
select_next_from do_select [] = []
select_next_from do_select (e ∷ rest) = elim (is_set e Flag.hidden) [
  | true ↦ e ∷ select_next_from do_select rest
  | false ↦ elim (is_set e Flag.selected) [
    | true ↦ deselect_unless_last rest e ∷ select_next_from true rest
    | false ↦ elim do_select [
      | true ↦ turn_on Flag.selected e ∷ rest
      | false ↦ e ∷ select_next_from false rest
    ]
  ]
]

unfoldable pub select_next : List DiscoveredItem → List DiscoveredItem
unfolding select_next_from
select_next l = select_next_from false l

-- discovered_items_select_prev once its variable `p` is set: `p`, the hidden entries that stand
-- between it and the cursor, and what is left of the list.
unfoldable pub select_prev_after :
    DiscoveredItem → List DiscoveredItem → List DiscoveredItem → List DiscoveredItem
select_prev_after p between [] = p ∷ between
select_prev_after p between (e ∷ rest) = elim (is_set e Flag.hidden) [
  | true ↦ select_prev_after p (between ++ e ∷ []) rest
  | false ↦ elim (is_set e Flag.selected) [
    | true ↦ turn_on Flag.selected p ∷ (between ++ turn_off Flag.selected e ∷ rest)
    | false ↦ p ∷ (between ++ select_prev_after e [] rest)
  ]
]

-- The same while `p` is NULL.
unfoldable pub select_prev : List DiscoveredItem → List DiscoveredItem
unfolding select_prev_after
select_prev [] = []
select_prev (e ∷ rest) = elim (is_set e Flag.hidden) [
  | true ↦ e ∷ select_prev rest
  | false ↦ select_prev_after e [] rest
]

unfoldable pub select_all : List DiscoveredItem → List DiscoveredItem
select_all l = map (turn_on Flag.selected) l

unfoldable pub select_none : List DiscoveredItem → List DiscoveredItem
select_none l = map (turn_off Flag.selected) l

unfoldable pub unhide_all : List DiscoveredItem → List DiscoveredItem
unhide_all l = map (turn_off Flag.hidden) l

-- The loop over the selected entries.
unfoldable pub if_selected : (DiscoveredItem → DiscoveredItem) → DiscoveredItem → DiscoveredItem
if_selected f e = if is_set e Flag.selected then f e else e

-- The body of most loops: one flag is turned over.
unfoldable pub toggle : Flag → DiscoveredItem → DiscoveredItem
toggle f e = if is_set e f then turn_off f e else turn_on f e

unfoldable pub show_pids_toggle : List DiscoveredItem → List DiscoveredItem
unfolding if_selected toggle
show_pids_toggle l = map (if_selected (toggle Flag.show_pids)) l

unfoldable pub show_tr101290_toggle : List DiscoveredItem → List DiscoveredItem
unfolding if_selected toggle
show_tr101290_toggle l = map (if_selected (toggle Flag.show_tr101290)) l

unfoldable pub show_iats_toggle : List DiscoveredItem → List DiscoveredItem
unfolding if_selected toggle
show_iats_toggle l = map (if_selected (toggle Flag.show_iat_histogram)) l

unfoldable pub show_streammodel_toggle : List DiscoveredItem → List DiscoveredItem
unfolding if_selected toggle
show_streammodel_toggle l = map (if_selected (toggle Flag.show_streammodel)) l

unfoldable pub show_processes_toggle : List DiscoveredItem → List DiscoveredItem
unfolding if_selected toggle
show_processes_toggle l = map (if_selected (toggle Flag.show_processes)) l

unfoldable pub json_probe_toggle : List DiscoveredItem → List DiscoveredItem
unfolding if_selected toggle
json_probe_toggle l = map (if_selected (toggle Flag.json_probe_active)) l

unfoldable pub scte35_toggle : List DiscoveredItem → List DiscoveredItem
unfolding if_selected toggle
scte35_toggle l = map (if_selected (toggle Flag.show_scte35)) l

unfoldable pub show_stream_log_toggle : List DiscoveredItem → List DiscoveredItem
unfolding if_selected toggle
show_stream_log_toggle l = map (if_selected (toggle Flag.show_stream_log)) l

-- The clocks are shown with the stream model, which is turned on with them.
unfoldable pub toggle_clocks : DiscoveredItem → DiscoveredItem
toggle_clocks e =
    if is_set e Flag.show_clocks
    then turn_off Flag.show_clocks e
    else (let shown : DiscoveredItem = turn_on Flag.show_clocks e in
        if not (is_set shown Flag.show_streammodel)
        then turn_on Flag.show_streammodel shown
        else shown)

unfoldable pub show_clocks_toggle : List DiscoveredItem → List DiscoveredItem
unfolding if_selected toggle_clocks
show_clocks_toggle l = map (if_selected toggle_clocks) l

-- No hiding of a stream that is being recorded.
unfoldable pub hide : DiscoveredItem → DiscoveredItem
hide e = if is_set e Flag.pcap_recording then e else turn_on Flag.hidden e

unfoldable pub select_hide : List DiscoveredItem → List DiscoveredItem
unfolding if_selected hide
select_hide l = map (if_selected hide) l

unfoldable pub record_toggle : DiscoveredItem → DiscoveredItem
record_toggle e =
    if is_set e Flag.pcap_recording || is_set e Flag.pcap_record_start
    then turn_on Flag.pcap_record_stop e
    else turn_on Flag.pcap_record_start e

unfoldable pub select_record_toggle : List DiscoveredItem → List DiscoveredItem
unfolding if_selected record_toggle
select_record_toggle l = map (if_selected record_toggle) l

-- `slot` is the number of the key, 7, 8 or 9.
unfoldable pub forward_toggle : ℕ → DiscoveredItem → DiscoveredItem
forward_toggle slot e =
    if is_set e Flag.stream_forwarding || is_set e Flag.stream_forward_start
    then record (turn_on Flag.stream_forward_stop e) { forward_slot_nr = 0 }
    else turn_on Flag.stream_forward_start (record e { forward_slot_nr = slot })

unfoldable pub select_forward_toggle : ℕ → List DiscoveredItem → List DiscoveredItem
unfolding if_selected forward_toggle
select_forward_toggle slot l = map (if_selected (forward_toggle slot)) l

-- The body of discovered_items_abort.
unfoldable pub abort : DiscoveredItem → DiscoveredItem
abort e =
    let stopped : DiscoveredItem =
      if is_set e Flag.pcap_recording || is_set e Flag.pcap_record_start
      then turn_on Flag.pcap_record_stop e
      else e in
    if is_set stopped Flag.stream_forwarding || is_set stopped Flag.stream_forward_start
    then turn_on Flag.stream_forward_stop stopped
    else stopped

unfoldable pub abort_all : List DiscoveredItem → List DiscoveredItem
unfolding abort
abort_all l = map abort l

unfoldable pub scte35_pageup : List DiscoveredItem → List DiscoveredItem
unfolding if_selected
scte35_pageup l = map (if_selected (λ e. record e { doc_scte35 = page_up e.doc_scte35 })) l

unfoldable pub scte35_pagedown : List DiscoveredItem → List DiscoveredItem
unfolding if_selected
scte35_pagedown l = map (if_selected (λ e. record e { doc_scte35 = page_down e.doc_scte35 })) l

unfoldable pub show_stream_log_pageup : List DiscoveredItem → List DiscoveredItem
unfolding if_selected
show_stream_log_pageup l =
    map (if_selected (λ e. record e { doc_stream_log = page_up e.doc_stream_log })) l

unfoldable pub show_stream_log_pagedown : List DiscoveredItem → List DiscoveredItem
unfolding if_selected
show_stream_log_pagedown l =
    map (if_selected (λ e. record e { doc_stream_log = page_down e.doc_stream_log })) l
