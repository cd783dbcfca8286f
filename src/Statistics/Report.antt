-- ===== src/Statistics/Report.antt =====
-- What is reported of a period, and that the accumulators of the rates are no maxima.
use ltntstools.Base.{
  ◌≡◌, ◌≢◌, refl, sym, ◌∙◌, ap, ap₂, subst, ℕ, true, ◌+◌, ◌<◌, ◌≤◌, List, [], ◌∷◌, ◌++◌, arith, All,
  if◌then◌else◌,
}
use ltntstools.Statistics.{
  Timeval, ℤ, pos, negsuc, leb_ℤ, Library, Period, Watermarks, Packet, end_period, update_10ms,
  update_100ms, update, updates, to_int, fits_int, to_int, fits_int,
}
use ltntstools.Statistics.Marks.{
  highest, IsHighest, highest-IsHighest, intervals, stored_intervals, stored_lem, measured,
  highest_next,
}

-- The two ways to keep the greater of two numbers.
greater : (a b : ℤ) → (if leb_ℤ b a then a else b) ≡ (if leb_ℤ a b then b else a)
greater (pos a) (pos b) = ground arith
greater (pos a) (negsuc b) = refl
greater (negsuc a) (pos b) = refl
greater (negsuc a) (negsuc b) = ground arith

-- The report of a period, at the time of its end.
abbrev pub reported : ℤ → ℕ → Period ℤ
reported m now = record { last_nsecond = m; accumulator = pos 0; last_time = now }

module _ (lib : Library) (interval : ℕ) where
  -- A packet that has a time, before the end of the period.
  abbrev pub Inside : ℕ → Packet → Type 0
  Inside last_time p = (p.ts.tv_sec ≢ 0) × (p.now < last_time + interval)

  period_of : Packet → Watermarks lib.History → Period ℤ
  unfolding end_period
  period_of p w =
      let top : ℤ =
        highest w.iat_period.accumulator (to_int (lib.subtract_us p.ts w.iat_last_frame) ∷ []) in
      end_period (pos 0) interval p.now (record w.iat_period { accumulator = top })

  period_lem :
      (p : Packet) (w : Watermarks lib.History)
      → w.iat_last_frame.tv_sec ≢ 0
      → (update lib interval p w).iat_period ≡ period_of p w
  unfolding update period_of highest
  period_lem p w h =
      ground
        (arith, greater w.iat_period.accumulator (to_int (lib.subtract_us p.ts w.iat_last_frame)))

  -- Inside the period only the accumulator moves.
  inside_lem :
      (q : Packet) (w : Watermarks lib.History)
      → w.iat_last_frame.tv_sec ≢ 0
      → q.now < w.iat_period.last_time + interval
      → (update lib interval q w).iat_period ≡ record w.iat_period {
        accumulator =
            highest w.iat_period.accumulator
              (stored_intervals lib interval w.iat_last_frame (q ∷ []));
      }
  unfolding period_of stored_intervals end_period
  inside_lem q w h early = period_lem q w h ∙ ground (arith)

  report_lem :
      (ps : List Packet) (p : Packet) (w : Watermarks lib.History)
      → w.iat_last_frame.tv_sec ≢ 0
      → All (Inside w.iat_period.last_time) ps
      → w.iat_period.last_time + interval ≤ p.now
      → (updates lib interval (ps ++ p ∷ []) w).iat_period
        ≡ reported
            (highest w.iat_period.accumulator
              (stored_intervals lib interval w.iat_last_frame (ps ++ p ∷ [])))
            p.now
  unfolding updates
  report_lem [] p w h inside over =
      unfold period_of stored_intervals end_period in (period_lem p w h ∙ ground arith)
  report_lem (q ∷ ps) p w h inside over =
      let next : Watermarks lib.History = update lib interval q w in
      let frame : next.iat_last_frame ≡ q.ts = (measured lib interval q w).0 in
      let period = inside_lem q w h inside.0.1 in
      let same_time : next.iat_period.last_time ≡ w.iat_period.last_time =
        ap (λ (x : Period ℤ). x.last_time) period in
      let top = ap (λ (x : Period ℤ). x.accumulator) period in
      report_lem ps p next (rw frame inside.0.0) (rw same_time inside.1) (rw same_time over)
      ∙ ap (λ (m : ℤ). reported m p.now)
          (ap₂ (λ (a : ℤ) (t : Timeval). highest a (stored_intervals lib interval t (ps ++ p ∷ [])))
              top frame
            ∙ sym (
                highest_next lib interval w.iat_period.accumulator w.iat_last_frame q
                  (ps ++ p ∷ [])))

  -- When the period ends with the packet `p`, after the packets `ps` that came inside it, where all
  -- of these have a time, as the last one before had, and an int holds the intervals between them, of
  -- less than 2147 seconds: what is reported is at least what had been collected before and at least
  -- every interval between these packets, and is one of these; the next period starts at this time
  -- with nothing collected. A packet has a time when its seconds are not 0.
  pub updates-reported :
      (ps : List Packet) (p : Packet) (w : Watermarks lib.History)
      → w.iat_last_frame.tv_sec ≢ 0
      → All (Inside w.iat_period.last_time) ps
      → w.iat_period.last_time + interval ≤ p.now
      → All (λ x. fits_int x ≡ true) (intervals lib interval w.iat_last_frame (ps ++ p ∷ []))
      → IsHighest
          (updates lib interval (ps ++ p ∷ []) w).iat_period.last_nsecond
          w.iat_period.accumulator
          (intervals lib interval w.iat_last_frame (ps ++ p ∷ []))
        × ((updates lib interval (ps ++ p ∷ []) w).iat_period.accumulator ≡ pos 0)
        × ((updates lib interval (ps ++ p ∷ []) w).iat_period.last_time ≡ p.now)
  updates-reported ps p w h inside over fit =
      let xs : List ℤ = intervals lib interval w.iat_last_frame (ps ++ p ∷ []) in
      let same =
        report_lem ps p w h inside over
        ∙ ap (λ l. reported (highest w.iat_period.accumulator l) p.now)
            (stored_lem lib interval w.iat_last_frame (ps ++ p ∷ []) fit) in
      (
        subst (λ m. IsHighest m w.iat_period.accumulator xs)
            (sym (ap (λ (x : Period ℤ). x.last_nsecond) same))
            (highest-IsHighest w.iat_period.accumulator xs),
        ap (λ (x : Period ℤ). x.accumulator) same,
        ap (λ (x : Period ℤ). x.last_time) same,
      )

  -- The accumulators of the rates are no maxima. Inside a period, a packet whose rate over 10 ms is
  -- below what had been collected, where that is below the watermark, lowers what is collected. And
  -- a packet whose rate over 100 ms is the highest ever is not collected for the 100 ms, where the
  -- 10 ms have collected at least as much.
  pub accumulators_not_maxima :
      (now bits_10ms bits_100ms : ℕ) (w : Watermarks lib.History)
      → bits_10ms < w.period_10ms.accumulator
      → w.period_10ms.accumulator < w.hwm_10ms
      → now < w.period_10ms.last_time + interval
      → w.hwm_100ms ≤ bits_100ms
      → w.period_100ms.accumulator < bits_100ms
      → bits_100ms ≤ w.period_10ms.accumulator
      → now < w.period_100ms.last_time + interval
      → ((update_10ms lib interval now bits_10ms w).period_10ms.accumulator
          < w.period_10ms.accumulator)
        × ((update_100ms lib interval now bits_100ms w).period_100ms.accumulator < bits_100ms)
  unfolding update_10ms update_100ms
  accumulators_not_maxima now bits bits' w a b c d e f g = (ground arith, ground arith)
