-- ===== src/Keys.antt =====
-- The loop of nic_monitor's main function that reads the keyboard (src/nic_monitor.c), and the
-- end of the program. A key is handled over up to three readings, since the menu of the forwards
-- and the cursor keys read on; so the model keeps the place where the next reading is made.
pub mod Steady
pub mod Rows
pub mod Session
pub mod Quit
mod Tests
use ltntstools.Base.{
  ℕ, ◌+◌, ◌-◌, ◌^◌, Bool, not, List, [], ◌∷◌, ◌++◌, map, Option, none, some, ◌==◌, bit_and,
  if◌then◌else◌,
}
use ltntstools.Document.{Line, Memory, append}
use ltntstools.Item.{DiscoveredItem}
use ltntstools.Selection.{
  select_first, select_next, select_prev, select_all, select_none, unhide_all, show_pids_toggle,
  show_tr101290_toggle, show_iats_toggle, show_streammodel_toggle, show_processes_toggle,
  json_probe_toggle, show_stream_log_toggle, show_clocks_toggle, select_hide, select_record_toggle,
  select_forward_toggle, abort_all, show_stream_log_pageup, show_stream_log_pagedown,
}

-- What the loop changes of the tool's context. `show_ui_options` is an int that is inverted.
pub record Context : Type 0 where
  pub items : List DiscoveredItem
  pub start_time : ℕ
  pub last_reset_time : ℕ
  pub last_socket_report : ℕ
  pub record_as_ts : ℕ
  pub record_with_segments : ℕ
  pub show_ui_options : ℕ
  pub show_forward_options : ℕ
  pub freeze_display : ℕ

-- One call of `ui_syncronized_getch`: whether `gRunning` was set when a loop tested it before the
-- call, the character, the clock, and the memory that is to be had.
pub record Reading : Type 0 where
  pub running : Bool
  pub c : ℕ
  pub now : ℕ
  pub memory : Memory

-- Where the next reading is made: at the top of the loop, in the menu of the forwards, after an
-- escape, and after an escape and a bracket; or the loop has been left.
pub data Place : Type 0 where
  at_top in_menu after_escape after_bracket ended : Place

abbrev pub on_items : (List DiscoveredItem → List DiscoveredItem) → Context → Context
on_items f x = record x { items = f x.items }

-- display_doc_append_with_time: `stamp` is the text that libltntools makes of a time.
unfoldable pub append_with_time : (ℕ → Line) → Memory → DiscoveredItem → Line → ℕ → DiscoveredItem
append_with_time stamp m e msg t = record e {
  doc_stream_log = (append m e.doc_stream_log (stamp t ++ b':' ∷ b' ' ∷ msg)).0;
}

module _ (stamp : ℕ → Line) (message : Line) where
  -- discovered_items_stats_reset, as far as it is seen in the objects of this model: `message` is
  -- the line about the reset. The watermarks are in Watermarks.
  unfoldable pub stats_reset : Memory → ℕ → List DiscoveredItem → List DiscoveredItem
  unfolding append_with_time
  stats_reset m now l = map (λ e. append_with_time stamp m e message now) l

  -- Key 'r'.
  unfoldable pub reset : Reading → Context → Context
  unfolding stats_reset
  reset r x = record x {
    items = stats_reset r.memory r.now x.items;
    last_reset_time = r.now;
    last_socket_report = 0;
  }

  -- The tests of the loop between the menu and the cursor keys, one after the other.
  unfoldable pub keys : List (ℕ × (Reading → Context → Context))
  unfolding reset
  keys =
      (b'f', λ _ x. record x { freeze_display = x.freeze_display + 1 })
      ∷ (b'r', reset)
      ∷ (b'C', λ _. on_items show_clocks_toggle)
      ∷ (b'D', λ _. on_items select_none)
      ∷ (b'S', λ _. on_items select_all)
      ∷ (b'T', λ _. on_items show_tr101290_toggle)
      ∷ (b'R', λ _. on_items select_record_toggle)
      ∷ (b's', λ _. on_items show_processes_toggle)
      ∷ (b'P', λ _. on_items show_pids_toggle)
      ∷ (b'I', λ _. on_items show_iats_toggle)
      ∷ (b'J', λ _. on_items json_probe_toggle)
      ∷ (b'L', λ _. on_items show_stream_log_toggle)
      ∷ (b'H', λ _. on_items select_hide)
      ∷ (b'U', λ _. on_items unhide_all)
      ∷ (b'M', λ _. on_items show_streammodel_toggle)
      ∷ (b'$', λ _ x. record x { record_as_ts = bit_and (x.record_as_ts + 1) 0x1 })
      ∷ (b'@', λ _ x. record x { record_with_segments = bit_and (x.record_with_segments + 1) 0x1 })
      ∷ (b'h', λ _ x. record x { show_ui_options = 2 ^ 32 - 1 - x.show_ui_options })
      ∷ []

  -- The menu of the forwards: its three keys.
  unfoldable pub menu_key : ℕ → Context → Option Context
  menu_key c x =
      if c == b'7'
      then some (on_items (select_forward_toggle 7) x)
      else if c == b'8'
      then some (on_items (select_forward_toggle 8) x)
      else if c == b'9'
      then some (on_items (select_forward_toggle 9) x)
      else if c == b'q'
      then some x
      else none

  -- The last byte of a cursor key.
  unfoldable pub cursor_key : ℕ → Context → Context
  cursor_key c x =
      if c == 0x41
      then on_items select_prev x
      else if c == 0x42
      then on_items select_next x
      else if c == 0x43
      then on_items select_first x
      else if c == 0x44
      then on_items select_none x
      else if c == 0x35
      then on_items show_stream_log_pageup x
      else if c == 0x36
      then on_items show_stream_log_pagedown x
      else x

  unfoldable pub apply_keys :
      ℕ → Reading → List (ℕ × (Reading → Context → Context)) → Context → Context
  apply_keys c r [] x = x
  apply_keys c r ((k, act) ∷ rest) x = apply_keys c r rest (if c == k then act r x else x)

  -- The body of the loop with the character that it read or, two seconds after the start, with the
  -- 'r' that takes its place.
  unfoldable pub handle : ℕ → Reading → Context → Place × Context
  unfolding apply_keys keys
  handle c r x =
      if c == b'F'
      then (Place.in_menu, record x { show_forward_options = 1 })
      else if c == b'q'
      then (Place.ended, x)
      else (if c == 0x1b then Place.after_escape else Place.at_top, apply_keys c r keys x)

  -- After the menu no test of the loop is met by its 'F', and the loop goes on at its top.
  unfoldable pub leave_menu : Option Context → Context → Place × Context
  leave_menu (some y) x = (Place.at_top, record y { show_forward_options = 0 })
  leave_menu none x = (Place.in_menu, x)

  -- One reading. After an escape `gRunning` is not tested.
  unfoldable pub step : Place → Reading → Context → Place × Context
  unfolding handle leave_menu menu_key cursor_key
  step Place.at_top r x =
      if r.running
      then handle (if x.start_time + 2 == r.now then b'r' else r.c) r x
      else (Place.ended, x)
  step Place.in_menu r x =
      if r.running
      then leave_menu (menu_key r.c x) x
      else (Place.ended, record x { show_forward_options = 0 })
  step Place.after_escape r x = (if r.c == 0x5b then Place.after_bracket else Place.at_top, x)
  step Place.after_bracket r x = (Place.at_top, cursor_key r.c x)
  step Place.ended r x = (Place.ended, x)

  unfoldable pub run : Place → List Reading → Context → Place × Context
  unfolding step
  run p [] x = (p, x)
  run p (r ∷ rest) x = let (q, y) = step p r x in run q rest y

  -- The program from the start of the loop: once the loop is left, recordings and forwards are told
  -- to stop. `none` says that the loop still waits for keys.
  unfoldable pub finish : Place → Context → Option Context
  finish Place.ended x = some (on_items abort_all x)
  finish _ x = none

  unfoldable pub session : List Reading → Context → Option Context
  unfolding run finish
  session rs x = let (p, y) = run Place.at_top rs x in finish p y
