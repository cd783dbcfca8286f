-- ===== src/Clocks/StreamTime.antt =====
-- The time of the stream, which is shown with every error.
use ltntstools.Base.{
  ◌≡◌, refl, sym, ap, ap₂, ◌∙◌, ℕ, ◌+◌, ◌<◌, ◌/◌, ◌^◌, Bool, true, false, some, List, [], ◌∷◌,
  arith, length, if◌then◌else◌, ==_refl,
}
use mathlib.Core.Bool.{true≢false}
use ltntstools.Clocks.{
  Library, Pid, packet_pid, scr_pid, set_pid, process_packet_stats, process_scr_stats,
  process_packet, process_packets, fresh,
}
use ltntstools.Clocks.Separate.{context, of_pid, process_packets-keeps}
use ltntstools.Clocks.Timing.{
  IsClockOf, last_of, scrs_of, scr_pid-running, scr_pid-starting, counted-HasClock, clocks_lem,
}

-- The first of a list, or a number where there is none.
abbrev pub first_of : ℕ → List ℕ → ℕ
first_of s [] = s
first_of s (t ∷ ts) = t

-- One more SCR.
scr_pid-first :
    (now s : ℕ) (ss : List ℕ) (q : Pid)
    → 1 + length ss < 2 ^ 64
    → IsClockOf q now ss
    → ((scr_pid now q s).scr_first ≡ first_of s ss) × ((scr_pid now q s).scr_first_time ≡ now)
scr_pid-first now s [] q few clock =
    let (hf, ht, hl, hc) = scr_pid-starting now s 0 0 0 q clock in (hf, ht)
scr_pid-first now s (t ∷ ts) q few clock =
    let (hf, ht, hl, hc) =
      scr_pid-running now s t now (last_of t ts) (1 + length ts) q (omega arith)
        (omega (arith, few)) clock in
    (hf, ht)

module _ (lib : Library) where
  counted-IsClockOf :
      (b : Bool) (q : Pid) (p : lib.Packet) (now : ℕ) (ss : List ℕ)
      → IsClockOf q now ss
      → IsClockOf (if b then packet_pid lib q p else q) now ss
  counted-IsClockOf b q p now [] clock = counted-HasClock lib b q p 0 0 0 0 clock
  counted-IsClockOf b q p now (s ∷ ss) clock =
      counted-HasClock lib b q p s now (last_of s ss) (1 + length ss) clock

  -- The time that the packet leaves, from the entry of its PID.
  abbrev Timed : ℕ → Pid → ℕ → ℕ → Type 0
  Timed now q s time =
      time
      ≡ (scr_pid now q s).scr_first_time + lib.scr_diff (scr_pid now q s).scr_first s / 27000000

  process_packet-time :
      (now stream : ℕ) (pids : ℕ → Pid) (packets scrs : Bool) (p : lib.Packet) (s : ℕ)
      → scrs ≡ true
      → lib.scr p ≡ some s
      → Timed now
          (if packets then packet_pid lib (pids (lib.pid p)) p else pids (lib.pid p))
          s
          (process_packet lib (context lib now stream pids packets scrs) p).current_stream_time
  unfolding process_packet process_packet_stats process_scr_stats set_pid
  process_packet-time now stream pids packets false p s on h = absurd (true≢false (sym on))
  process_packet-time now stream pids true true p s on h =
      rw (h, process_packet, process_scr_stats, ==_refl (lib.pid p)) refl
  process_packet-time now stream pids false true p s on h =
      rw (h, process_packet, process_scr_stats) refl

  -- With the clocks on, on a stream with fewer SCRs of each PID than 2^64: at a packet with an SCR
  -- the time of the stream is the initial time and the whole seconds from the first SCR of the same
  -- PID to this one, whatever the SCRs of other PIDs are.
  pub stream_time_lem :
      (now : ℕ) (packets : Bool) (ps : List lib.Packet) (p : lib.Packet) (s : ℕ)
      → lib.scr p ≡ some s
      → 1 + length (scrs_of lib (of_pid lib (lib.pid p) ps)) < 2 ^ 64
      → (process_packet lib (process_packets lib (fresh now packets true) ps) p).current_stream_time
        ≡ now + lib.scr_diff (first_of s (scrs_of lib (of_pid lib (lib.pid p) ps))) s / 27000000
  stream_time_lem now packets ps p s h few =
      let ctx = process_packets lib (fresh now packets true) ps in
      let (start, flag, on) = process_packets-keeps lib ps (fresh now packets true) in
      let before = scrs_of lib (of_pid lib (lib.pid p) ps) in
      let clock =
        counted-IsClockOf ctx.do_packet_statistics (ctx.pids (lib.pid p)) p now before
          (clocks_lem lib now (lib.pid p) packets ps (omega (arith, few))) in
      let q =
        if ctx.do_packet_statistics
        then packet_pid lib (ctx.pids (lib.pid p)) p
        else ctx.pids (lib.pid p) in
      let (first, first_time) = scr_pid-first now s before q few clock in
      let time =
        process_packet-time ctx.initial_time ctx.current_stream_time ctx.pids
          ctx.do_packet_statistics ctx.do_scr_statistics p s on h in
      time
      ∙ ap
          (λ t.
            (scr_pid t q s).scr_first_time + lib.scr_diff (scr_pid t q s).scr_first s / 27000000)
          start
      ∙ ap₂ (λ a b. a + lib.scr_diff b s / 27000000) first_time first
