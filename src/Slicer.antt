-- ===== src/Slicer.antt =====
-- The slicer (src/slicer.c): the conversion between clock ticks and times of day, and the index of
-- the time stamps of a file, in which slices are looked up. Ticks are counted at 27 MHz.
pub mod Times
pub mod Lookup
mod Tests
use ltntstools.Base.{
  ℕ, ◌+◌, ◌-◌, ◌*◌, ◌/◌, ◌%◌, Bool, true, false, not, ◌||◌, ◌&&◌, Option, none, some, List, [], ◌∷◌,
  ltb, leb, ◌==◌, if◌then◌else◌, suc,
}
use ltntstools.Statistics.{ℤ, pos, negsuc, to_int, fits_int}

-- struct videotime_s, five numbers of type int.
pub record VideoTime : Type 0 where
  pub days : ℤ
  pub hours : ℤ
  pub mins : ℤ
  pub secs : ℤ
  pub msecs : ℤ

-- `-k`
abbrev pub minus : ℕ → ℤ
minus k = if k == 0 then pos 0 else negsuc (k - 1)

-- A number of seconds with a sign: division in C rounds to 0.
unfoldable pub split_seconds : (ℕ → ℤ) → ℕ → VideoTime
split_seconds sign seconds =
    let days : ℕ = seconds / (3600 * 24) in
    let in_day : ℕ = seconds - days * (3600 * 24) in
    let hours : ℕ = in_day / 3600 in
    let in_hour : ℕ = in_day - hours * 3600 in
    let mins : ℕ = in_hour / 60 in
    record {
      days = sign days;
      hours = sign hours;
      mins = sign mins;
      secs = sign (in_hour - mins * 60);
      msecs = pos 0;
    }

unfoldable pub signed_seconds : ℤ → VideoTime
unfolding split_seconds
signed_seconds (pos seconds) = split_seconds pos seconds
signed_seconds (negsuc n) = split_seconds minus (suc n)

-- The seconds are stored in an int. The milliseconds are computed, and then set to 0.
unfoldable pub pcr_to_videotime : ℤ → VideoTime
unfolding signed_seconds to_int
pcr_to_videotime (pos pcr) = signed_seconds (to_int (pos (pcr / 27000000)))
pcr_to_videotime (negsuc n) = signed_seconds (to_int (minus (suc n / 27000000)))

-- The sum of two numbers, and a multiple.
abbrev pub difference : ℕ → ℕ → ℤ
difference a b = if leb b a then pos (a - b) else negsuc (b - a - 1)

unfoldable pub plus : ℤ → ℤ → ℤ
plus (pos a) (pos b) = pos (a + b)
plus (pos a) (negsuc b) = difference a (b + 1)
plus (negsuc a) (pos b) = difference b (a + 1)
plus (negsuc a) (negsuc b) = negsuc (a + b + 1)

unfoldable pub times : ℤ → ℕ → ℤ
times (pos a) k = pos (a * k)
times (negsuc a) k = minus ((a + 1) * k)

-- A product of ints, which must not overflow.
unfoldable pub int_times : ℤ → ℕ → Option ℤ
unfolding times
int_times a k = if fits_int (times a k) then some (times a k) else none

-- `none` is the overflow of one of the four products of ints; the sum has 64 bits.
unfoldable pub videotime_to_pcr : VideoTime → Option ℤ
unfolding int_times plus times
videotime_to_pcr vt = elim (int_times vt.days (3600 * 24)) [
  | none ↦ none
  | some days ↦ elim (int_times vt.hours 3600) [
    | none ↦ none
    | some hours ↦ elim (int_times vt.mins 60) [
      | none ↦ none
      | some mins ↦ elim (int_times vt.msecs 27000) [
        | none ↦ none
        | some ticks ↦
            some (plus (times (plus (plus (plus days hours) mins) vt.secs) 27000000) ticks)
      ]
    ]
  ]
]

-- struct ltntstools_pcr_position_s, in the fields that the slicer uses.
pub record Position : Type 0 where
  pub pid : ℕ
  pub offset : ℕ
  pub pcr : ℕ

-- indexLookupPCR: the loop from the first entry on.
unfoldable pub lookup_pcr : ℕ → ℕ → List Position → Option Position
lookup_pcr pid pcr [] = none
lookup_pcr pid pcr (e ∷ rest) =
    if not (pid == e.pid)
    then lookup_pcr pid pcr rest
    else if leb pcr e.pcr
    then some e
    else lookup_pcr pid pcr rest

-- indexLookupPCRReverse: the loop from the last entry on.
unfoldable pub lookup_pcr_reverse : ℕ → ℕ → List Position → Option Position
lookup_pcr_reverse pid pcr [] = none
lookup_pcr_reverse pid pcr (e ∷ rest) = elim (lookup_pcr_reverse pid pcr rest) [
  | some later ↦ some later
  | none ↦ if not (pid == e.pid) then none else if leb e.pcr pcr then some e else none
]

-- The two loops of indexRefreshContext: the first and the last time stamp of the stream, or what
-- the field was.
unfoldable pub first_pcr : ℕ → ℕ → List Position → ℕ
first_pcr pid old [] = old
first_pcr pid old (e ∷ rest) = if e.pid == pid then e.pcr else first_pcr pid old rest

unfoldable pub last_pcr : ℕ → ℕ → List Position → ℕ
last_pcr pid old [] = old
last_pcr pid old (e ∷ rest) = last_pcr pid (if e.pid == pid then e.pcr else old) rest

-- The fields of the context that indexRefreshContext sets.
pub record Extent : Type 0 where
  pub first : ℕ
  pub last : ℕ
  pub duration : ℕ
  pub stream_time : VideoTime

unfoldable pub refresh : ℕ → List Position → Extent → Extent
unfolding first_pcr last_pcr pcr_to_videotime
refresh pid index x =
    let first : ℕ = first_pcr pid x.first index in
    let last : ℕ = last_pcr pid x.last index in
    let duration : ℕ = if ltb first last then last - first else 0 in
    record {
      first = first;
      last = last;
      duration = duration;
      stream_time = pcr_to_videotime (pos duration);
    }
