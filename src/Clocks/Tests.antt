-- ===== src/Clocks/Tests.antt =====
-- A stream with two PIDs: the packets are written out as what is read in them.
use ltntstools.Base.{
  ℕ, ◌+◌, ◌-◌, ◌*◌, ◌/◌, ◌≡◌, refl, true, Option, none, some, List, [], ◌∷◌, length, arith,
}
use mathlib.Core.List.{Perm}
use ltntstools.Statistics.{pos}
use ltntstools.Clocks.{
  Library, ClockItem, process_packet, process_packets, fresh, ordered_clock_inserts,
}
use ltntstools.Clocks.Separate.{of_pid}
use ltntstools.Clocks.Counters.{jumps, counted_jumps, counters_lem}
use ltntstools.Clocks.Timing.{IsClockOf, scrs_of, clocks_lem}
use ltntstools.Clocks.StreamTime.{first_of, stream_time_lem}
use ltntstools.Clocks.Ordered.{IsDescending, not_before, inserts-kept}

record Read : Type 0 where
  on : ℕ
  counter : ℕ
  control : ℕ
  clock : Option ℕ

abbrev read : Library
read = record {
  Packet = Read;
  pid = λ p. p.on;
  continuity_counter = λ p. p.counter;
  adaption_field_control = λ p. p.control;
  scr = λ p. p.clock;
  scr_diff = λ a b. b - a;
}

-- PID 49 has 15, 0, 0 without a payload, 2 and 3, of which 2 is a jump.
abbrev stream : List Read
stream =
    record { on = 49; counter = 15; control = 1; clock = none }
    ∷ record { on = 50; counter = 7; control = 1; clock = none }
    ∷ record { on = 49; counter = 0; control = 3; clock = some 1000 }
    ∷ record { on = 49; counter = 0; control = 2; clock = some 28000 }
    ∷ record { on = 49; counter = 2; control = 1; clock = none }
    ∷ record { on = 8191; counter = 5; control = 1; clock = none }
    ∷ record { on = 8191; counter = 5; control = 1; clock = none }
    ∷ record { on = 49; counter = 3; control = 3; clock = some 27001000 }
    ∷ []

length-of_pid : length (of_pid read 49 stream) ≡ 5
unfolding of_pid
length-of_pid = refl

length-scrs_of : length (scrs_of read (of_pid read 49 stream)) ≡ 3
unfolding of_pid scrs_of
length-scrs_of = refl

counters_lem_example :
    (((process_packets read (fresh 100 true true) stream).pids 49).pkt_count
      ≡ length (of_pid read 49 stream))
    × (((process_packets read (fresh 100 true true) stream).pids 49).cc_errors
        ≡ counted_jumps 49 (jumps read (of_pid read 49 stream)))
counters_lem_example = counters_lem read 100 49 true stream (omega (arith, length-of_pid))

one_jump : counted_jumps 49 (jumps read (of_pid read 49 stream)) ≡ 1
unfolding counted_jumps jumps of_pid
one_jump = refl

clocks_lem_example :
    IsClockOf
      ((process_packets read (fresh 100 true true) stream).pids 49)
      100
      (scrs_of read (of_pid read 49 stream))
clocks_lem_example = clocks_lem read 100 49 true stream (omega (arith, length-scrs_of))

-- One second after the first SCR.
abbrev last_packet : Read
last_packet = record { on = 49; counter = 4; control = 3; clock = some 27001500 }

stream_time_lem_example :
    (process_packet read
      (process_packets read (fresh 100 true true) stream)
      last_packet).current_stream_time
    ≡ 100 + (27001500 - first_of 27001500 (scrs_of read (of_pid read 49 stream))) / 27000000
stream_time_lem_example =
    stream_time_lem read 100 true stream last_packet 27001500 refl (omega (arith, length-scrs_of))

-- The presentation times of an I frame and of two B frames that are shown before it.
abbrev item : ℕ → ClockItem
item n = record { nr = n; clock = pos n; filepos = n * 188 }

inserts-kept_example :
    IsDescending (ordered_clock_inserts [] (item 7200 ∷ item 0 ∷ item 3600 ∷ item 10800 ∷ []))
    × Perm
        (ordered_clock_inserts [] (item 7200 ∷ item 0 ∷ item 3600 ∷ item 10800 ∷ []))
        (item 7200 ∷ not_before (item 7200) (item 0 ∷ item 3600 ∷ item 10800 ∷ []))
inserts-kept_example = inserts-kept (item 7200) (item 0 ∷ item 3600 ∷ item 10800 ∷ [])

two_lost : not_before (item 7200) (item 0 ∷ item 3600 ∷ item 10800 ∷ []) ≡ item 10800 ∷ []
unfolding not_before
two_lost = refl
