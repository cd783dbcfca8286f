-- ===== src/Threads/Tests.antt =====
-- Threads on small inputs.
use ltntstools.Base.{Option, none, some, ◌≡◌, refl, ℕ, Bool, true, false, List, [], ◌∷◌, arith}
use ltntstools.Options.{InputType, pcap, mpegts_avdevice}
use ltntstools.Threads.{
  Timer, Stats, stats_start, stats_round, stats_rounds, fire, is_due, plan, PcapStat, again, bytes,
  Round, PcapThread, no_stat, pcap_rounds, input_round, after_input, device_round, created, looping,
  tells, ending, in_keys, waiting, past, Flags, begins, works, asks, goes_on, Reach, here, next,
  fresh_flags,
}
use ltntstools.Threads.Reports.{ArePaced, AreAhead, reports_paced}
use ltntstools.Threads.Counters.{shown_exact}
use ltntstools.Threads.EndTime.{HasEnded, ends_in_time}
use ltntstools.Threads.Shutdown.{HasLeft, past-HasLeft, request_lost}

abbrev idle : Timer
idle = record { next_write_time = 0; banner = some true; written = [] }

abbrev monitor : Stats
monitor = record {
  file_prefix = true;
  detailed_file_prefix = true;
  file_write_interval = 5;
  json_write_interval = 2;
  file = idle;
  detailed = idle;
  json = record idle { banner = none };
  housekeepings = 0;
  sleeps = 0;
}

abbrev seen : Stats → List (ℕ × Option Bool) × List (ℕ × Option Bool) × ℕ × ℕ
seen s = (s.file.written, s.json.written, s.housekeepings, s.sleeps)

-- At the times 101 to 105, the file reports are written once and the JSON report three times.
test_reports :
    seen (
      stats_rounds
        (stats_start 100 monitor)
        ((true, 101) ∷ (false, 102) ∷ (true, 103) ∷ (false, 104) ∷ (false, 105) ∷ []))
    ≡ ((105, some true) ∷ [], (105, none) ∷ (103, none) ∷ (101, none) ∷ [], 2, 2)
unfolding stats_rounds stats_start stats_round fire is_due plan
test_reports = refl

reports_paced_example :
    ArePaced
      (stats_rounds (stats_start 100 monitor) ((true, 101) ∷ (false, 103) ∷ (false, 105) ∷ []))
    × AreAhead
        (stats_rounds (stats_start 100 monitor) ((true, 101) ∷ (false, 103) ∷ (false, 105) ∷ []))
        105
reports_paced_example =
    reports_paced monitor 100 105 false ((true, 101) ∷ (false, 103) ∷ []) refl refl (omega arith)
      (omega arith) (refl, refl) (refl, refl) (refl, refl)

abbrev recv : ℕ → PcapStat
recv n = record { ps_recv = n; ps_drop = 0; ps_ifdrop = 0 }

abbrev round : ℕ → ℕ → Round
round now n = record {
  processed = 1;
  read = bytes 188;
  now = now;
  first_stat = recv n;
  stat = recv n;
}

abbrev thread : InputType → ℕ → PcapThread
thread k end_time = record {
  iftype = k;
  end_time = end_time;
  dispatch_miss = 0;
  reframed = 0;
  last_stats_check = 0;
  stats_startup = no_stat;
  stats = no_stat;
  rebalances = 0;
  left = false;
  running = true;
}

abbrev fed : PcapThread → ℕ × ℕ × Bool × Bool
fed t = (t.reframed, t.rebalances, t.left, t.running)

-- A device that is read twice and then has nothing, with its end time at 52.
test_device :
    fed (
      pcap_rounds
        (thread mpegts_avdevice 52)
        (round 50 0 ∷ round 51 0 ∷ (record (round 55 0) { read = again }) ∷ []))
    ≡ (376, 2, false, true)
unfolding pcap_rounds input_round device_round after_input
test_device = refl

shown_exact_example :
    (pcap_rounds (thread pcap 0) (round 50 0xfffffffe ∷ round 50 0 ∷ round 51 3 ∷ [])).stats
    ≡ recv 5
shown_exact_example =
    shown_exact (recv 0xfffffffe) (recv 0x100000003) (thread pcap 0) (round 50 0xfffffffe)
      (round 51 3) (round 50 0 ∷ []) (refl, refl, refl, refl) (omega arith) (omega arith)
      ((omega arith, omega arith), tt) refl refl
      (omega arith, omega arith, omega arith, omega arith, omega arith, omega arith)

ends_in_time_example :
    HasEnded (pcap_rounds (thread pcap 52) (round 50 0 ∷ round 53 1 ∷ round 54 2 ∷ []))
ends_in_time_example =
    ends_in_time (round 50 0 ∷ []) (round 54 2 ∷ []) (round 53 1) (thread pcap 52) tt (λ e. cc)
      (λ e. omega arith) (omega arith)

abbrev looping_flags : Flags
looping_flags = record { terminate = false; terminated = false; thread = looping; main = in_keys }

abbrev asked : Flags
asked = record { terminate = true; terminated = false; thread = looping; main = waiting }

abbrev gone : Flags
gone = record { terminate = true; terminated = true; thread = ending; main = past }

-- Main is past the wait while the thread is still ending.
abbrev orderly : Reach false fresh_flags gone
orderly =
    next
      (next (next (next here (begins fresh_flags refl)) (asks looping_flags refl))
        (tells asked refl refl))
      (goes_on (record asked { terminated = true; thread = ending }) refl refl)

past-HasLeft_example : HasLeft gone
past-HasLeft_example = past-HasLeft false gone orderly refl

abbrev hasty : Flags
hasty = record { terminate = true; terminated = false; thread = created; main = waiting }

abbrev deaf : Flags
deaf = record { terminate = false; terminated = false; thread = looping; main = waiting }

request_lost_example : deaf.main ≡ waiting
request_lost_example =
    request_lost hasty deaf deaf refl refl (begins hasty refl) refl
      (next here (works deaf refl refl))
