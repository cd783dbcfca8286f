-- ===== src/PictureTiming/Tests.antt =====
-- A reader of numbers, the first bits the lowest, and messages for it.
use ltntstools.Base.{ℕ, ◌+◌, ◌*◌, ◌/◌, ◌%◌, ◌^◌, List, [], ◌∷◌}
use ltntstools.PictureTiming.{Reader}
use ltntstools.PictureTiming.Messages.{full, up_to_seconds, Sent, absent, sent}

abbrev numbers : Reader
numbers = record {
  Position = ℕ;
  get_bits = λ s n. (s % 2 ^ n, s / 2 ^ n);
  get_bits_long = λ s n. (s % 2 ^ n, s / 2 ^ n);
}

abbrev put : ℕ → ℕ → ℕ → ℕ
put n v s = v + s * 2 ^ n

-- 15:18:52.31 in the second field of a frame whose first sends its seconds only.
abbrev frame : List Sent
frame = sent 0 1 0 0 0 30 (up_to_seconds 52) ∷ absent ∷ sent 0 1 0 0 0 31 (full 52 18 15) ∷ []
