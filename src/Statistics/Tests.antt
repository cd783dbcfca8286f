-- ===== src/Statistics/Tests.antt =====
-- The theorems about the statistics at a few packets, with a library that keeps all sizes.
use ltntstools.Base.{
  ℕ, ◌+◌, ◌-◌, ◌≡◌, refl, true, [], ◌∷◌, ◌++◌, List, leb, if◌then◌else◌, arith, All,
}
use ltntstools.Document.{Memory, initialize}
use ltntstools.Statistics.{
  Timeval, ℤ, pos, negsuc, Library, Watermarks, Packet, Errors, updates, to_int, residue, fits_int,
}
use ltntstools.Statistics.Marks.{IsHighest, IsLowest, intervals, updates-marks}
use ltntstools.Statistics.Report.{updates-reported}
use ltntstools.Statistics.Window.{micros}

abbrev difference : Timeval → Timeval → ℤ
difference a b =
    if leb (micros b) (micros a)
    then pos (micros a - micros b)
    else negsuc (micros b - micros a - 1)

abbrev total : List ℕ → ℕ
total [] = 0
total (x ∷ xs) = x + total xs

abbrev library : Library
library = record {
  History = List ℕ;
  subtract_us = difference;
  write = λ h t n. n ∷ h;
  sumtotal = λ h from to. total h;
}

abbrev second : ℕ → ℕ → Timeval
second s us = record { tv_sec = s; tv_usec = us }

-- A packet of 1316 bytes.
abbrev packet : ℕ → ℕ → Packet
packet s us = record { ts = second s us; now = s; nowtv = second s us; length_payload_bytes = 1316 }

-- As after a reset: a frame at second 10, and a period that began at second 8.
abbrev marks : ℕ → Watermarks (List ℕ)
marks collected = record {
  iat_last_frame = second 10 0;
  iat_cur_us = pos 0;
  iat_lwm_us = pos 5000000;
  iat_hwm_us = negsuc 0;
  iat_period = record { last_nsecond = pos 0; accumulator = pos 0; last_time = 8 };
  sizes = [];
  hwm_10ms = 900;
  period_10ms = record { last_nsecond = 0; accumulator = collected; last_time = 8 };
  hwm_100ms = 500;
  period_100ms = record { last_nsecond = 0; accumulator = 0; last_time = 8 };
}

abbrev packets : List Packet
packets = packet 10 700 ∷ packet 11 200 ∷ []

packets_fit :
    All (λ x. fits_int x ≡ true) (intervals library 5 (second 10 0) (packets ++ packet 13 200 ∷ []))
    × All (λ x. fits_int x ≡ true) (intervals library 5 (second 10 0) packets)
unfolding intervals
packets_fit = ((refl, (refl, (refl, tt))), (refl, (refl, tt)))

updates-marks_example :
    IsHighest
      (updates library 5 packets (marks 0)).iat_hwm_us
      (negsuc 0)
      (intervals library 5 (second 10 0) packets)
    × IsLowest
        (updates library 5 packets (marks 0)).iat_lwm_us
        (pos 5000000)
        (intervals library 5 (second 10 0) packets)
updates-marks_example = updates-marks library 5 packets (marks 0) packets_fit.1

highest_of_two : (updates library 5 packets (marks 0)).iat_hwm_us ≡ pos 999500
unfolding updates to_int residue
highest_of_two = refl

updates-reported_example :
    IsHighest
      (updates library 5 (packets ++ packet 13 200 ∷ []) (marks 0)).iat_period.last_nsecond
      (pos 0)
      (intervals library 5 (second 10 0) (packets ++ packet 13 200 ∷ []))
    × ((updates library 5 (packets ++ packet 13 200 ∷ []) (marks 0)).iat_period.accumulator ≡ pos 0)
    × ((updates library 5 (packets ++ packet 13 200 ∷ []) (marks 0)).iat_period.last_time ≡ 13)
updates-reported_example =
    updates-reported library 5 packets (packet 13 200) (marks 0) (omega arith) (omega arith)
      (omega arith) packets_fit.0

abbrev memory : Memory
memory = record { realloc_ok = true; calloc_ok = true }

abbrev no_errors : Errors
no_errors = record { stats_to_ui = 0; last_stream_cc_error = 0; log = initialize }
