-- ===== src/Statistics/Window.antt =====
-- The start of a window of time, and the lines about continuity errors in the log.
use ltntstools.Base.{
  ◌≡◌, refl, ℕ, ◌+◌, ◌*◌, ◌<◌, ◌≤◌, List, [], ◌∷◌, arith, ◌==◌, Bool-cases, inl, inr,
}
use ltntstools.Document.{Document, Line, Memory, append}
use ltntstools.Statistics.{Timeval, subtract_ms, Errors, note_errors}

-- The microseconds since 1970.
abbrev pub micros : Timeval → ℕ
micros t = t.tv_sec * 1000000 + t.tv_usec

-- For a valid time after the first second of 1970, and at most a second: the result is a valid
-- time, that many milliseconds earlier.
pub subtract_ms_lem :
    (now : Timeval) (ms : ℕ)
    → 0 < now.tv_sec
    → now.tv_usec < 1000000
    → ms ≤ 1000
    → ((subtract_ms now ms).tv_usec < 1000000)
      × (micros (subtract_ms now ms) + ms * 1000 ≡ micros now)
unfolding subtract_ms
subtract_ms_lem now ms sec usec small = (ground arith, ground arith)

-- The counters that the statistics show after each of several packets, at one time.
pub notes : Memory → Line → ℕ → List ℕ → Errors → Errors
notes m line now [] e = e
notes m line now (c ∷ cs) e = notes m line now cs (note_errors m line now c e)

-- The counter that the last of them showed.
pub last_count : ℕ → List ℕ → ℕ
last_count c [] = c
last_count c (d ∷ ds) = last_count d ds

appends_one :
    (m : Memory) (d : Document) (line : Line) → (append m d line).0.line_count ≤ d.line_count + 1
unfolding append
appends_one m d line = ground arith

quiet :
    (m : Memory) (line : Line) (now : ℕ) (cs : List ℕ) (e : Errors)
    → e.last_stream_cc_error ≡ now
    → ((notes m line now cs e).log ≡ e.log)
      × ((notes m line now cs e).stats_to_ui ≡ last_count e.stats_to_ui cs)
unfolding notes last_count note_errors
quiet m line now [] e h = (refl, refl)
quiet m line now (c ∷ cs) e h =
    let next : Errors = note_errors m line now c e in
    ground (arith, quiet m line now cs next (ground arith))

-- Whatever the counter shows in one second, in any number of packets, the log grows by one line at
-- most; and the counter that was last shown is the one that is kept.
pub notes-line_count :
    (m : Memory) (line : Line) (now : ℕ) (cs : List ℕ) (e : Errors)
    → ((notes m line now cs e).log.line_count ≤ e.log.line_count + 1)
      × ((notes m line now cs e).stats_to_ui ≡ last_count e.stats_to_ui cs)
unfolding notes last_count note_errors
notes-line_count m line now [] e = (omega arith, refl)
notes-line_count m line now (c ∷ cs) e = elim (Bool-cases (c == e.stats_to_ui)) [
  | inl same ↦ ground (arith, notes-line_count m line now cs e)
  | inr new ↦
      let next : Errors = note_errors m line now c e in
      let after = quiet m line now cs next (ground arith) in
      ground (arith, after, appends_one m e.log line)
]
