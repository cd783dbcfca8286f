-- ===== src/PictureTiming.antt =====
-- The picture timing messages of H.264 (src/pes_inspector.c: _parse_PIC_TIMING), from the byte 5
-- of the unit on. The bit reader is ffmpeg's, an argument. The clocks are those printed.
pub mod Messages
mod Tests
use ltntstools.Base.{
  ℕ, zero, suc, Bool, Option, none, some, List, [], ◌∷◌, ◌==◌, if◌then◌else◌, get_elem?, ◌++◌,
}

-- A position in the bits, get_bits and get_bits_long.
pub record Reader : Type 1 where
  pub Position : Type 0
  pub get_bits : Position → ℕ → ℕ × Position
  pub get_bits_long : Position → ℕ → ℕ × Position

pub record Clock : Type 0 where
  pub hours : ℕ
  pub minutes : ℕ
  pub seconds : ℕ
  pub n_frames : ℕ
  pub pic_struct : ℕ
  pub discontinuity_flag : ℕ
  pub ct_type : ℕ
  pub counting_type : ℕ
  pub nuit_field_based_flag : ℕ
  pub full_timestamp_flag : ℕ
  pub cnt_dropped_flag : ℕ

-- Seconds, minutes and hours.
unfoldable pub full_time : (r : Reader) → r.Position → (ℕ × ℕ × ℕ) × r.Position
full_time r at =
    let (seconds, at_minutes) = r.get_bits at 6 in
    let (minutes, at_hours) = r.get_bits at_minutes 6 in
    let (hours, after) = r.get_bits at_hours 5 in ((seconds, minutes, hours), after)

unfoldable pub flagged_hours : (r : Reader) → r.Position → ℕ × r.Position
flagged_hours r at =
    let (hours_flag, after) = r.get_bits at 1 in
    if hours_flag == 0 then (0, after) else r.get_bits after 5

unfoldable pub flagged_minutes : (r : Reader) → r.Position → (ℕ × ℕ) × r.Position
unfolding flagged_hours
flagged_minutes r at =
    let (minutes_flag, after) = r.get_bits at 1 in
    let (minutes, at_hours) = r.get_bits after 6 in
    let (hours, end) = flagged_hours r at_hours in
    if minutes_flag == 0 then ((0, 0), after) else ((minutes, hours), end)

unfoldable pub flagged_time : (r : Reader) → r.Position → (ℕ × ℕ × ℕ) × r.Position
unfolding flagged_minutes
flagged_time r at =
    let (seconds_flag, after) = r.get_bits at 1 in
    let (seconds, at_minutes) = r.get_bits after 6 in
    let ((minutes, hours), end) = flagged_minutes r at_minutes in
    if seconds_flag == 0 then ((0, 0, 0), after) else ((seconds, minutes, hours), end)

-- After a clock_timestamp_flag that is set.
unfoldable pub clock : (r : Reader) → ℕ → r.Position → Clock × r.Position
unfolding full_time flagged_time
clock r pic_struct at =
    let (ct_type, at1) = r.get_bits at 2 in
    let (nuit_field_based_flag, at2) = r.get_bits at1 1 in
    let (counting_type, at3) = r.get_bits at2 5 in
    let (full_timestamp_flag, at4) = r.get_bits at3 1 in
    let (discontinuity_flag, at5) = r.get_bits at4 1 in
    let (cnt_dropped_flag, at6) = r.get_bits at5 1 in
    let (n_frames, at7) = r.get_bits at6 8 in
    let ((seconds, minutes, hours), after) =
      if full_timestamp_flag == 0 then flagged_time r at7 else full_time r at7 in
    (
      record {
        hours = hours;
        minutes = minutes;
        seconds = seconds;
        n_frames = n_frames;
        pic_struct = pic_struct;
        discontinuity_flag = discontinuity_flag;
        ct_type = ct_type;
        counting_type = counting_type;
        nuit_field_based_flag = nuit_field_based_flag;
        full_timestamp_flag = full_timestamp_flag;
        cnt_dropped_flag = cnt_dropped_flag;
      },
      after,
    )

unfoldable pub next_clock : (r : Reader) → ℕ → r.Position → List Clock × r.Position
unfolding clock
next_clock r pic_struct at =
    let (clock_timestamp_flag, after) = r.get_bits at 1 in
    let (c, end) = clock r pic_struct after in
    if clock_timestamp_flag == 0 then ([], after) else (c ∷ [], end)

unfoldable pub clocks : (r : Reader) → ℕ → ℕ → r.Position → List Clock × r.Position
unfolding next_clock
clocks r pic_struct zero at = ([], at)
clocks r pic_struct (suc n) at =
    let (shown, after) = next_clock r pic_struct at in
    let (rest, end) = clocks r pic_struct n after in (shown ++ rest, end)

abbrev pub num_clocks_ts : List ℕ
num_clocks_ts = 1 ∷ 1 ∷ 1 ∷ 2 ∷ 2 ∷ 3 ∷ 3 ∷ 2 ∷ 3 ∷ 0 ∷ 0 ∷ 0 ∷ 0 ∷ 0 ∷ 0 ∷ 0 ∷ []

abbrev pub cpb_removal_delay_length : ℕ → ℕ
cpb_removal_delay_length pid = if pid == 0x31 then 8 else 15

abbrev pub dpb_removal_delay_length : ℕ → ℕ
dpb_removal_delay_length pid = if pid == 0x31 then 0 else 11

-- From pic_struct on. `none` is an index outside the table.
unfoldable pub structure_clocks :
    (r : Reader) → ℕ → ℕ × r.Position → Option (List Clock × r.Position)
unfolding clocks
structure_clocks r pid (in_stream, at) =
    let pic_struct = if pid == 0x100 then 8 else in_stream in
    elim (get_elem? num_clocks_ts pic_struct) [
      | none ↦ none
      | some n ↦ some (clocks r pic_struct n at)
    ]

unfoldable pub parse_pic_timing : (r : Reader) → ℕ → r.Position → Option (List Clock × r.Position)
unfolding structure_clocks
parse_pic_timing r pid at =
    let (cpb_removal_delay, at1) = r.get_bits_long at (cpb_removal_delay_length pid) in
    let (dpb_removal_delay, at2) = r.get_bits_long at1 (dpb_removal_delay_length pid) in
    structure_clocks r pid (r.get_bits at2 4)
