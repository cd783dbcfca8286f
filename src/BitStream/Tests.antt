-- ===== src/BitStream/Tests.antt =====
-- The theorems about bits at a buffer of two bytes.
use ltntstools.Base.{ℕ, ◌*◌, ◌≡◌, refl, some, [], ◌∷◌, arith, length, testbit}
use ltntstools.BitStream.{Context, set_buffer, write_bits, read_bits}
use ltntstools.BitStream.Writing.{low, IsWriting}
use ltntstools.BitStream.Reading.{number, read_bits-write_bits}

-- Three bits are in the register.
abbrev half_written : Context
half_written = record { buf = 0 ∷ 0 ∷ []; buflen = 2; buflen_used = 0; reg_used = 3; reg = 5 }

half_written-IsWriting : IsWriting half_written
half_written-IsWriting = record {
  sized = refl;
  reg_small = omega arith;
  inside = omega arith;
  fits = omega arith;
}

read_bits-write_bits_example :
    (c : Context) × (d : Context) × (write_bits
        (set_buffer (0 ∷ 0 ∷ []))
        0xabcd
        (8 * length {A = ℕ} (0 ∷ 0 ∷ []))
      ≡ some c)
    × (read_bits (set_buffer c.buf) (8 * length {A = ℕ} (0 ∷ 0 ∷ []))
        ≡ some (number 0 (low (8 * length {A = ℕ} (0 ∷ 0 ∷ [])) 0xabcd), d))
read_bits-write_bits_example = read_bits-write_bits (0 ∷ 0 ∷ []) 0xabcd (omega arith) (omega arith)

-- The number is the one that was written.
number_of_bits : number 0 (low 16 0xabcd) ≡ 0xabcd
unfolding number low testbit
number_of_bits = refl
