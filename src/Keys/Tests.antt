-- ===== src/Keys/Tests.antt =====
-- The theorems about the keys at a loop that starts with one stream, and a test of the loop.
use ltntstools.Base.{ℕ, ◌+◌, ◌≡◌, refl, true, [], ◌∷◌, All, List, map}
use ltntstools.Document.{Line}
use ltntstools.Item.{is_set, state_get, state_set, mask, position}
use ltntstools.Item.Samples.{sample, first_headers}
use ltntstools.Selection.{abort_all, select_all, select_hide, select_forward_toggle}
use ltntstools.Keys.{Context, Reading, Place, on_items, run, session}
use ltntstools.Keys.Rows.{Rows}
use ltntstools.Keys.Session.{run-Rows}
use ltntstools.Keys.Quit.{session_stops, AsksToStop}

-- A stream that is being recorded, in a loop that started at time 100.
abbrev start : Context
start = record {
  items = sample 1 first_headers 24 8 0 ∷ [];
  start_time = 100;
  last_reset_time = 100;
  last_socket_report = 0;
  record_as_ts = 1;
  record_with_segments = 1;
  show_ui_options = 0;
  show_forward_options = 0;
  freeze_display = 0;
}

abbrev key : ℕ → Reading
key c = record {
  running = true;
  c = c;
  now = 110;
  memory = record { realloc_ok = true; calloc_ok = true };
}

abbrev stamp : ℕ → Line
stamp t = t ∷ []

-- All streams are selected, hidden and forwarded to slot 7, and the program is left.
abbrev typed : List Reading
typed = map key (b'S' ∷ b'H' ∷ b'F' ∷ b'7' ∷ b'q' ∷ [])

run-Rows_example : Rows start.items (run stamp [] Place.at_top typed start).1.items
run-Rows_example = run-Rows stamp [] Place.at_top typed start

abbrev left : Context
left = on_items abort_all (run stamp [] Place.at_top typed start).1

session_stops_example : All AsksToStop left.items × Rows start.items left.items
unfolding session
session_stops_example = session_stops stamp [] typed start left refl

-- The words of the state before and after: selected, recording and asked to stop it, forwarding
-- asked for and asked to stop it. The stream is not hidden.
states : map (λ e. e.state) left.items ≡ (1 + 8 + 16 + 4096 + 16384) ∷ []
unfolding run abort_all select_all select_hide select_forward_toggle is_set state_get state_set mask
    position
states = refl
