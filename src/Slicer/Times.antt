-- ===== src/Slicer/Times.antt =====
-- The conversion of times, there and back.
use ltntstools.Base.{
  ℕ, ◌+◌, ◌-◌, ◌*◌, ◌/◌, ◌%◌, ◌<◌, ◌^◌, ◌≡◌, refl, sym, ap, ◌∙◌, true, some, arith, ltb,
}
use ltntstools.Statistics.{pos}
use ltntstools.Statistics.Marks.{to_int_lem}
use ltntstools.Slicer.{
  VideoTime, split_seconds, signed_seconds, pcr_to_videotime, plus, times, int_times,
  videotime_to_pcr,
}

-- Days and a time of day, in whole seconds.
abbrev pub whole : ℕ → ℕ → ℕ → ℕ → VideoTime
whole days hours mins secs = record {
  days = pos days;
  hours = pos hours;
  mins = pos mins;
  secs = pos secs;
  msecs = pos 0;
}

abbrev pub seconds_of : ℕ → ℕ → ℕ → ℕ → ℕ
seconds_of days hours mins secs = days * (3600 * 24) + hours * 3600 + mins * 60 + secs

int_times_lem : (a k : ℕ) → a * k < 2 ^ 31 → int_times (pos a) k ≡ some (pos (a * k))
unfolding int_times times
int_times_lem a k h = let fits : ltb (a * k) (2 ^ 31) ≡ true = ground (arith, h) in rw fits refl

videotime_to_pcr-whole :
    (d h m s : ℕ)
    → seconds_of d h m s < 2 ^ 31
    → videotime_to_pcr (whole d h m s) ≡ some (pos (seconds_of d h m s * 27000000))
unfolding videotime_to_pcr plus times
videotime_to_pcr-whole d h m s small =
    rw
      (
        videotime_to_pcr,
        int_times_lem d (3600 * 24) (omega (arith, small)),
        int_times_lem h 3600 (omega (arith, small)),
        int_times_lem m 60 (omega (arith, small)),
      )
      (ap (λ n. some (pos n)) (omega arith))

split_lem :
    (n d h m s : ℕ)
    → n ≡ seconds_of d h m s
    → h < 24
    → m < 60
    → s < 60
    → split_seconds pos n ≡ whole d h m s
unfolding split_seconds
split_lem n d h m s e hh hm hs =
    let there : VideoTime = split_seconds pos n in
    let days : n / (3600 * 24) ≡ d = omega (arith, e, hh, hm, hs) in
    let in_day : n - n / (3600 * 24) * (3600 * 24) ≡ h * 3600 + m * 60 + s =
      omega (arith, e, days) in
    let hours : (n - n / (3600 * 24) * (3600 * 24)) / 3600 ≡ h = omega (arith, in_day, hm, hs) in
    let in_hour : n
          - n / (3600 * 24) * (3600 * 24)
          - (n - n / (3600 * 24) * (3600 * 24)) / 3600 * 3600
        ≡ m * 60 + s =
      omega (arith, in_day, hours) in
    λ i. record {
      days = pos (days i);
      hours = pos (hours i);
      mins = pos (
          (let e : (n
                      - n / (3600 * 24) * (3600 * 24)
                      - (n - n / (3600 * 24) * (3600 * 24)) / 3600 * 3600)
                    / 60
                  ≡ m =
                omega (arith, in_hour, hs) in
              e)
            i);
      secs = pos (
          (let e : n
                    - n / (3600 * 24) * (3600 * 24)
                    - (n - n / (3600 * 24) * (3600 * 24)) / 3600 * 3600
                    - (n
                        - n / (3600 * 24) * (3600 * 24)
                        - (n - n / (3600 * 24) * (3600 * 24)) / 3600 * 3600)
                      / 60
                      * 60
                  ≡ s =
                omega (arith, in_hour, hs) in
              e)
            i);
      msecs = pos 0;
    }

pcr_to_videotime-small :
    (pcr : ℕ)
    → pcr < 2 ^ 31 * 27000000
    → pcr_to_videotime (pos pcr) ≡ split_seconds pos (pcr / 27000000)
unfolding pcr_to_videotime signed_seconds
pcr_to_videotime-small pcr small =
    ap signed_seconds (to_int_lem (pos (pcr / 27000000)) (ground (arith, small)))

-- Ticks of less than 2^31 seconds are converted to days and a time of day, and back to the ticks of the
-- whole second that they are in.
pub videotime_to_pcr-pcr_to_videotime :
    (pcr : ℕ)
    → pcr < 2 ^ 31 * 27000000
    → (d : ℕ) × (h : ℕ) × (m : ℕ) × (s : ℕ) × (pcr_to_videotime (pos pcr) ≡ whole d h m s)
      × (h < 24)
      × (m < 60)
      × (s < 60)
      × (videotime_to_pcr (pcr_to_videotime (pos pcr)) ≡ some (pos (pcr / 27000000 * 27000000)))
videotime_to_pcr-pcr_to_videotime pcr small =
    let q : ℕ = pcr / 27000000 in
    let d : ℕ = q / 86400 in
    let h : ℕ = q % 86400 / 3600 in
    let m : ℕ = q % 3600 / 60 in
    let s : ℕ = q % 60 in
    let e : pcr / 27000000 ≡ seconds_of d h m s = omega arith in
    let there : pcr_to_videotime (pos pcr) ≡ whole d h m s =
      pcr_to_videotime-small pcr small
      ∙ split_lem (pcr / 27000000) d h m s e (omega arith) (omega arith) (omega arith) in
    (
      d,
      h,
      m,
      s,
      there,
      omega arith,
      omega arith,
      omega arith,
      ap videotime_to_pcr there
          ∙ videotime_to_pcr-whole d h m s (omega (arith, small, e))
          ∙ ap (λ n. some (pos (n * 27000000))) (sym e),
    )

-- Days and a time of day of less than 2^31 seconds are what their ticks are converted to.
pub pcr_to_videotime-videotime_to_pcr :
    (d h m s : ℕ)
    → h < 24
    → m < 60
    → s < 60
    → seconds_of d h m s < 2 ^ 31
    → (pcr : ℕ) × (videotime_to_pcr (whole d h m s) ≡ some (pos pcr))
      × (pcr_to_videotime (pos pcr) ≡ whole d h m s)
pcr_to_videotime-videotime_to_pcr d h m s hh hm hs small = (
  seconds_of d h m s * 27000000,
  videotime_to_pcr-whole d h m s small,
  pcr_to_videotime-small (seconds_of d h m s * 27000000) (omega (arith, small))
      ∙ split_lem (seconds_of d h m s * 27000000 / 27000000) d h m s (omega arith) hh hm hs,
)
