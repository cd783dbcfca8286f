-- ===== src/BitStream.antt =====
-- The reader and writer of bits (src/klbitstream_readwriter.h). `none` stands for a failed assert
-- or an access outside the buffer.
pub mod Writing
pub mod Reading
mod Tests
use ltntstools.Base.{
  ℕ, zero, suc, ◌+◌, ◌-◌, ◌*◌, ◌%◌, ◌/◌, ◌^◌, Bool, true, false, not, Option, none, some, List, [],
  ◌∷◌, ltb, leb, ◌==◌, if◌then◌else◌, length, get_elem?, set, bit_and, bit_or,
}

-- struct klbs_context_s: `buf` is the buffer of the caller, of `buflen` bytes.
pub record Context : Type 0 where
  pub buf : List ℕ
  pub buflen : ℕ
  pub buflen_used : ℕ
  pub reg_used : ℕ
  pub reg : ℕ

-- klbs_write_set_buffer, and klbs_read_set_buffer, which calls it.
unfoldable pub set_buffer : List ℕ → Context
set_buffer buf = record { buf = buf; buflen = length buf; buflen_used = 0; reg_used = 0; reg = 0 }

-- The second half of klbs_write_bit: a full register is written.
unfoldable pub flush : Context → Option Context
flush c =
    if c.reg_used == 8
    then if ltb c.buflen_used c.buflen
      then some (record c {
        buf = set c.buf c.buflen_used c.reg;
        buflen_used = c.buflen_used + 1;
        reg_used = 0;
      })
      else none
    else some c

-- klbs_write_bit
unfoldable pub write_bit : Context → ℕ → Option Context
unfolding flush
write_bit c bit =
    if ltb c.buflen c.buflen_used
    then none
    else flush (
        if ltb c.reg_used 8
        then record c { reg = bit_or (c.reg * 2 % 256) (bit_and bit 1); reg_used = c.reg_used + 1 }
        else c)

-- `w >> i`
unfoldable pub shift_right : ℕ → ℕ → ℕ
shift_right w zero = w
shift_right w (suc i) = shift_right (w / 2) i

-- The loop of klbs_write_bits: `bitcount` bits of `bits`, the highest first. A shift of the 64 bits
-- by 64 or more is undefined.
unfoldable pub write_bits_from : Context → ℕ → ℕ → Option Context
unfolding write_bit shift_right
write_bits_from c bits zero = some c
write_bits_from c bits (suc i) =
    if leb 64 i then none else elim (write_bit c (shift_right bits i)) [
      | none ↦ none
      | some c' ↦ write_bits_from c' bits i
    ]

-- klbs_write_bits, whose argument is a number of 64 bits.
unfoldable pub write_bits : Context → ℕ → ℕ → Option Context
unfolding write_bits_from
write_bits c bits bitcount = write_bits_from c (bits % 2 ^ 64) bitcount

-- klbs_read_bit: the register is filled if it is empty, and its highest bit is taken.
unfoldable pub fill : Context → Option Context
fill c =
    if c.reg_used == 0
    then elim (get_elem? c.buf c.buflen_used) [
      | none ↦ none
      | some b ↦ some (record c { reg = b; buflen_used = c.buflen_used + 1; reg_used = 8 })
    ]
    else some c

unfoldable pub read_bit : Context → Option (ℕ × Context)
unfolding fill
read_bit c = if ltb c.buflen c.buflen_used then none else elim (fill c) [
  | none ↦ none
  | some d ↦
      if leb d.reg_used 8
      then some (
        if bit_and d.reg 0x80 == 0 then 0 else 1,
        record d { reg = d.reg * 2 % 256; reg_used = d.reg_used - 1 },
      )
      else some (0, d)
]

-- The loop of klbs_read_bits: `n` bits, into the 64 bits of `bits`.
unfoldable pub read_bits_from : Context → ℕ → ℕ → Option (ℕ × Context)
unfolding read_bit
read_bits_from c bits zero = some (bits, c)
read_bits_from c bits (suc n) = elim (read_bit c) [
  | none ↦ none
  | some (b, d) ↦ read_bits_from d (bit_or (bits * 2 % 2 ^ 64) b) n
]

unfoldable pub read_bits : Context → ℕ → Option (ℕ × Context)
unfolding read_bits_from
read_bits c n = read_bits_from c 0 n
