-- ===== src/PictureTiming/Messages.antt =====
-- Messages in the layout that is expected from the first bit read on, and what is printed of them.
use ltntstools.Base.{◌≡◌, ℕ, ◌<◌, ◌≤◌, ◌^◌, List, [], ◌∷◌, ◌++◌}
use ltntstools.PictureTiming.{Reader, Clock, cpb_removal_delay_length, dpb_removal_delay_length}

-- `put n v s` begins with the n bits of `v` and goes on as `s`; get_bits reads 1 to 25 bits, and
-- get_bits_long up to 32.
abbrev pub Reads : (r : Reader) → (ℕ → ℕ → r.Position → r.Position) → Type 0
Reads r put =
    ((n v : ℕ) (s : r.Position) → 1 ≤ n → n ≤ 25 → v < 2 ^ n → r.get_bits (put n v s) n ≡ (v, s))
    × ((n v : ℕ) (s : r.Position) → n ≤ 32 → v < 2 ^ n → r.get_bits_long (put n v s) n ≡ (v, s))

-- Seconds, minutes and hours, as far as they are sent.
pub data Time : Type 0 where
  full : ℕ → ℕ → ℕ → Time
  nothing : Time
  up_to_seconds : ℕ → Time
  up_to_minutes : ℕ → ℕ → Time
  up_to_hours : ℕ → ℕ → ℕ → Time

pub data Sent : Type 0 where
  absent : Sent
  sent : (ct_type nuit counting_type discontinuity dropped n_frames : ℕ) → Time → Sent

abbrev TimeFits : Time → Type 0
TimeFits (full s m h) = (s < 2 ^ 6) × (m < 2 ^ 6) × (h < 2 ^ 5)
TimeFits nothing = Unit
TimeFits (up_to_seconds s) = s < 2 ^ 6
TimeFits (up_to_minutes s m) = (s < 2 ^ 6) × (m < 2 ^ 6)
TimeFits (up_to_hours s m h) = (s < 2 ^ 6) × (m < 2 ^ 6) × (h < 2 ^ 5)

abbrev pub Fits : Sent → Type 0
Fits absent = Unit
Fits (sent ct nuit counting disc dropped frames t) =
    (ct < 2 ^ 2)
    × (nuit < 2 ^ 1)
    × (counting < 2 ^ 5)
    × (disc < 2 ^ 1)
    × (dropped < 2 ^ 1)
    × (frames < 2 ^ 8)
    × TimeFits t

abbrev time_of : Time → ℕ × ℕ × ℕ
time_of (full s m h) = (s, m, h)
time_of nothing = (0, 0, 0)
time_of (up_to_seconds s) = (s, 0, 0)
time_of (up_to_minutes s m) = (s, m, 0)
time_of (up_to_hours s m h) = (s, m, h)

abbrev is_full : Time → ℕ
is_full (full s m h) = 1
is_full _ = 0

-- The clock that is printed, if any.
abbrev pub printed : ℕ → Sent → List Clock
printed pic_struct absent = []
printed pic_struct (sent ct nuit counting disc dropped frames t) =
    let (seconds, minutes, hours) = time_of t in
    record {
      hours = hours;
      minutes = minutes;
      seconds = seconds;
      n_frames = frames;
      pic_struct = pic_struct;
      discontinuity_flag = disc;
      ct_type = ct;
      counting_type = counting;
      nuit_field_based_flag = nuit;
      full_timestamp_flag = is_full t;
      cnt_dropped_flag = dropped;
    }
    ∷ []

abbrev pub all_printed : ℕ → List Sent → List Clock
all_printed pic_struct [] = []
all_printed pic_struct (c ∷ cs) = printed pic_struct c ++ all_printed pic_struct cs

module _ (r : Reader) (put : ℕ → ℕ → r.Position → r.Position) where
  abbrev put_time : Time → r.Position → r.Position
  put_time (full s m h) end = put 6 s (put 6 m (put 5 h end))
  put_time nothing end = put 1 0 end
  put_time (up_to_seconds s) end = put 1 1 (put 6 s (put 1 0 end))
  put_time (up_to_minutes s m) end = put 1 1 (put 6 s (put 1 1 (put 6 m (put 1 0 end))))
  put_time (up_to_hours s m h) end = put 1 1 (put 6 s (put 1 1 (put 6 m (put 1 1 (put 5 h end)))))

  abbrev pub put_clock : Sent → r.Position → r.Position
  put_clock absent end = put 1 0 end
  put_clock (sent ct nuit counting disc dropped frames t) end = put 1 1 (
      put 2 ct (
        put 1 nuit (
          put 5 counting
            (put 1 (is_full t) (put 1 disc (put 1 dropped (put 8 frames (put_time t end))))))))

  abbrev pub put_clocks : List Sent → r.Position → r.Position
  put_clocks [] end = end
  put_clocks (c ∷ cs) end = put_clock c (put_clocks cs end)

  -- A message: the two delays, the structure and the clocks.
  abbrev pub put_message : ℕ → ℕ → ℕ → ℕ → List Sent → r.Position → r.Position
  put_message pid cpb dpb pic_struct cs end =
      put (cpb_removal_delay_length pid) cpb
        (put (dpb_removal_delay_length pid) dpb (put 4 pic_struct (put_clocks cs end)))
