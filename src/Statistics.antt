-- ===== src/Statistics.antt =====
-- The intervals and rates of one stream: the part of _processPackets_Stats
-- (src/nic_monitor_pcap.c) on the watermarks, their reset (src/nic_monitor_di.c), and
-- subtract_ms_from_timeval (src/utils.c). An interval is a signed number of microseconds, which
-- is stored in an int; the bits of a window, which are stored in one too, are taken to be fewer than 2^31. The
-- difference of two times and the history of the rates are libltntools.
pub mod Marks
pub mod Report
pub mod Window
mod Tests
use ltntstools.Base.{
  ℕ, ◌+◌, ◌-◌, ◌*◌, ◌%◌, ◌^◌, Bool, true, false, not, ◌&&◌, List, [], ◌∷◌, ltb, leb, ◌==◌,
  if◌then◌else◌,
}
use ltntstools.Document.{Document, Line, Memory, append}

-- struct timeval
pub record Timeval : Type 0 where
  pub tv_sec : ℕ
  pub tv_usec : ℕ

-- `negsuc n` is -(n + 1).
pub data ℤ : Type 0 where
  pos : ℕ → ℤ
  negsuc : ℕ → ℤ

-- `a <= b`
abbrev pub leb_ℤ : ℤ → ℤ → Bool
leb_ℤ (pos a) (pos b) = leb a b
leb_ℤ (pos a) (negsuc b) = false
leb_ℤ (negsuc a) (pos b) = true
leb_ℤ (negsuc a) (negsuc b) = leb b a

-- A number stored in an int of 32 bits, which wraps round.
unfoldable pub residue : ℤ → ℕ
residue (pos a) = a % 2 ^ 32
residue (negsuc a) = 2 ^ 32 - 1 - a % 2 ^ 32

unfoldable pub to_int : ℤ → ℤ
unfolding residue
to_int z = if ltb (residue z) (2 ^ 31) then pos (residue z) else negsuc (2 ^ 32 - 1 - residue z)

abbrev pub fits_int : ℤ → Bool
fits_int (pos a) = ltb a (2 ^ 31)
fits_int (negsuc a) = ltb a (2 ^ 31)

-- subtract_ms_from_timeval, for times after the first second of 1970 and at most a second of `ms`.
unfoldable pub subtract_ms : Timeval → ℕ → Timeval
subtract_ms now ms =
    if ltb now.tv_usec (ms * 1000)
    then record { tv_sec = now.tv_sec - 1; tv_usec = now.tv_usec + 1000 * 1000 - ms * 1000 }
    else record { tv_sec = now.tv_sec; tv_usec = now.tv_usec - ms * 1000 }

-- What libltntools computes: the microseconds from one time to another, and the sum of the sizes
-- that were written to a history between two times.
pub record Library : Type 1 where
  pub History : Type 0
  pub subtract_us : Timeval → Timeval → ℤ
  pub write : History → Timeval → ℕ → History
  pub sumtotal : History → Timeval → Timeval → ℕ

-- The maximum of the last period, the one that is being collected, and the end of the last period.
pub record Period (A : Type 0) : Type 0 where
  pub last_nsecond : A
  pub accumulator : A
  pub last_time : ℕ

-- `if ((last_nsecond_time + file_write_interval) <= now)`: the period ends.
unfoldable pub end_period : {A : Type 0} → A → ℕ → ℕ → Period A → Period A
end_period zero_value interval now p =
    if leb (p.last_time + interval) now
    then record { last_nsecond = p.accumulator; accumulator = zero_value; last_time = now }
    else p

pub record Watermarks (H : Type 0) : Type 0 where
  pub iat_last_frame : Timeval
  pub iat_cur_us : ℤ
  pub iat_lwm_us : ℤ
  pub iat_hwm_us : ℤ
  pub iat_period : Period ℤ
  pub sizes : H
  pub hwm_10ms : ℕ
  pub period_10ms : Period ℕ
  pub hwm_100ms : ℕ
  pub period_100ms : Period ℕ

-- The watermarks in discovered_items_stats_reset.
unfoldable pub reset_marks : {H : Type 0} → Watermarks H → Watermarks H
reset_marks w = record w {
  iat_lwm_us = pos 5000000;
  iat_hwm_us = negsuc 0;
  hwm_10ms = 0;
  hwm_100ms = 0;
}

-- One packet: the time of its capture, the two clocks that the code reads, and its length.
pub record Packet : Type 0 where
  pub ts : Timeval
  pub now : ℕ
  pub nowtv : Timeval
  pub length_payload_bytes : ℕ

module _ (lib : Library) (file_write_interval : ℕ) where
  -- The watermarks of the intervals.
  unfoldable pub update_iat : ℕ → ℤ → Watermarks lib.History → Watermarks lib.History
  unfolding end_period
  update_iat now cur w =
      let p : Period ℤ =
        if leb_ℤ cur w.iat_period.accumulator
        then w.iat_period
        else record w.iat_period { accumulator = cur } in
      record w {
        iat_cur_us = cur;
        iat_lwm_us = if leb_ℤ cur w.iat_lwm_us then cur else w.iat_lwm_us;
        iat_hwm_us = if leb_ℤ w.iat_hwm_us cur then cur else w.iat_hwm_us;
        iat_period = end_period (pos 0) file_write_interval now p;
      }

  -- The watermarks of the rates, from the bits of the last 10 ms and 100 ms. The accumulator takes
  -- these bits where the watermark is above a threshold: its own value for the 10 ms, but again the
  -- 10 ms accumulator for the 100 ms.
  unfoldable pub update_10ms : ℕ → ℕ → Watermarks lib.History → Watermarks lib.History
  unfolding end_period
  update_10ms now bits w =
      let hwm = if leb w.hwm_10ms bits then bits else w.hwm_10ms in
      let p : Period ℕ =
        if ltb w.period_10ms.accumulator hwm
        then record w.period_10ms { accumulator = bits }
        else w.period_10ms in
      record w { hwm_10ms = hwm; period_10ms = end_period 0 file_write_interval now p }

  unfoldable pub update_100ms : ℕ → ℕ → Watermarks lib.History → Watermarks lib.History
  unfolding end_period
  update_100ms now bits w =
      let hwm = if leb w.hwm_100ms bits then bits else w.hwm_100ms in
      let p : Period ℕ =
        if ltb w.period_10ms.accumulator hwm
        then record w.period_100ms { accumulator = bits }
        else w.period_100ms in
      record w { hwm_100ms = hwm; period_100ms = end_period 0 file_write_interval now p }

  unfoldable pub update_rates : Packet → Watermarks lib.History → Watermarks lib.History
  unfolding update_10ms update_100ms subtract_ms
  update_rates p w =
      let written : Watermarks lib.History = record w {
        sizes = lib.write w.sizes p.nowtv (p.length_payload_bytes * 8);
      } in
      let ten : Watermarks lib.History =
        update_10ms p.now (lib.sumtotal written.sizes (subtract_ms p.nowtv 10) p.nowtv) written in
      update_100ms p.now (lib.sumtotal ten.sizes (subtract_ms p.nowtv 100) p.nowtv) ten

  -- The first frame, when the time of the last one is still 0, sets this time only.
  unfoldable pub update : Packet → Watermarks lib.History → Watermarks lib.History
  unfolding update_iat update_rates to_int
  update p w =
      let measured : Watermarks lib.History =
        if w.iat_last_frame.tv_sec == 0
        then w
        else update_rates p (update_iat p.now (to_int (lib.subtract_us p.ts w.iat_last_frame)) w) in
      record measured { iat_last_frame = p.ts }

  unfoldable pub updates : List Packet → Watermarks lib.History → Watermarks lib.History
  unfolding update
  updates [] w = w
  updates (p ∷ rest) w = updates rest (update p w)

-- The counter of continuity errors that was last seen, and the second of the last line about them.
pub record Errors : Type 0 where
  pub stats_to_ui : ℕ
  pub last_stream_cc_error : ℕ
  pub log : Document

-- The comparison of the counter after an update of the statistics: `line` is the text of the line.
unfoldable pub note_errors : Memory → Line → ℕ → ℕ → Errors → Errors
note_errors m line now cc_errors e = if cc_errors == e.stats_to_ui then e else record {
  stats_to_ui = cc_errors;
  last_stream_cc_error = if e.last_stream_cc_error == now then e.last_stream_cc_error else now;
  log = if e.last_stream_cc_error == now then e.log else (append m e.log line).0;
}
