-- ===== src/BitStream/Reading.antt =====
-- What is read from the buffer, as a list of bits (klbs_read_bit, klbs_read_bits).
use ltntstools.Base.{
  ℕ, zero, suc, ◌+◌, ◌-◌, ◌*◌, ◌%◌, ◌^◌, ◌≤◌, ◌<◌, ◌≡◌, refl, sym, ap, ap₂, ◌∙◌, some, List, [],
  ◌∷◌, ◌++◌, arith, ◌==◌, if◌then◌else◌, length, take-all, drop, get_elem?, bit_and, bit_or,
  testbit, testbit-lt, and-pow, Bool-cases, inl, inr,
}
use mathlib.Core.List.{append-nil}
use ltntstools.BitStream.{
  Context, write_bits, fill, read_bit, read_bits_from, read_bits, set_buffer,
}
use ltntstools.BitStream.Writing.{low, bits_of, contents, room, IsWriting, write_bits-contents}

-- The high `k` bits of a register of eight.
unfoldable pub high : ℕ → ℕ → List ℕ
high zero r = []
high (suc k) r = testbit r 7 ∷ high k (r * 2 % 256)

-- The bits that have not been read.
unfoldable pub remaining : Context → List ℕ
remaining c = high c.reg_used c.reg ++ bits_of (drop c.buflen_used c.buf)

high-low : (b : ℕ) → high 8 b ≡ low 8 b
unfolding high low testbit
high-low b = ap₂ ◌∷◌ (omega arith) (
    ap₂ ◌∷◌ (omega arith) (
      ap₂ ◌∷◌ (omega arith) (
        ap₂ ◌∷◌ (omega arith) (
          ap₂ ◌∷◌ (omega arith)
            (ap₂ ◌∷◌ (omega arith) (ap₂ ◌∷◌ (omega arith) (ap₂ ◌∷◌ (omega arith) refl)))))))

drop-get_elem? :
    (l : List ℕ) (n : ℕ)
    → n < length l
    → (b : ℕ) × (get_elem? l n ≡ some b) × (drop n l ≡ b ∷ drop (suc n) l)
drop-get_elem? [] n h = absurd (omega (arith, h))
drop-get_elem? (x ∷ l) zero h = (x, refl, refl)
drop-get_elem? (x ∷ l) (suc n) h = drop-get_elem? l n (omega (arith, h))

top_bit : (r : ℕ) → (if bit_and r 0x80 == 0 then 0 else 1) ≡ testbit r 7
top_bit r = ground (arith, and-pow r 7, testbit-lt r 7)

-- A register of at most eight bits, and a buffer that is as long as it is said to be.
pub record IsReading (c : Context) : Type 0 where
  pub sized : length c.buf ≡ c.buflen
  pub reg_small : c.reg_used ≤ 8
  pub inside : c.buflen_used ≤ c.buflen

-- How many bits are left.
unfoldable pub left : Context → ℕ
left c = 8 * (c.buflen - c.buflen_used) + c.reg_used

-- A context whose register is not empty.
take_bit :
    (c : Context)
    → IsReading c
    → 0 < c.reg_used
    → let d = record c { reg = c.reg * 2 % 256; reg_used = c.reg_used - 1 } in
      IsReading d × (left c ≡ left d + 1) × (remaining c ≡ testbit c.reg 7 ∷ remaining d)
unfolding left remaining high
take_bit c r some_left = (
  record { sized = r.sized; reg_small = omega (arith, r.reg_small); inside = r.inside },
  omega (arith, some_left),
  ap (λ k. high k c.reg ++ bits_of (drop c.buflen_used c.buf))
      (let e : c.reg_used ≡ suc (c.reg_used - 1) = omega (arith, some_left) in e),
)

-- The bits that have not been read are the same after the register is filled.
filled :
    (c : Context) (b : ℕ)
    → c.reg_used ≡ 0
    → drop c.buflen_used c.buf ≡ b ∷ drop (suc c.buflen_used) c.buf
    → remaining c ≡ remaining (record c { reg = b; buflen_used = c.buflen_used + 1; reg_used = 8 })
unfolding remaining bits_of
filled c b none_held split =
    ap (λ k. high k c.reg ++ bits_of (drop c.buflen_used c.buf)) none_held
    ∙ unfold high in
      (ap bits_of split
        ∙ ap₂ ◌++◌ (sym (high-low b)) (
            ap (λ n. bits_of (drop n c.buf))
              (let e : suc c.buflen_used ≡ c.buflen_used + 1 = omega arith in e)))

-- Where a bit is left, reading it takes the first of those that have not been read.
pub read_bit_lem :
    (c : Context)
    → IsReading c
    → 0 < left c
    → (b : ℕ) × (c' : Context) × (read_bit c ≡ some (b, c'))
      × IsReading c'
      × (left c ≡ left c' + 1)
      × (remaining c ≡ b ∷ remaining c')
unfolding read_bit fill left
read_bit_lem c r some_left = elim (Bool-cases (c.reg_used == 0)) [
  | inr held ↦
      let (r', less, here) = take_bit c r (ground (arith, held)) in
      (
        testbit c.reg 7,
        record c { reg = c.reg * 2 % 256; reg_used = c.reg_used - 1 },
        ground (arith, held, r.reg_small, r.inside, top_bit c.reg),
        r',
        less,
        here,
      )
  | inl empty ↦
      let none_held : c.reg_used ≡ 0 = ground (arith, empty) in
      let (b, got, split) =
        drop-get_elem? c.buf c.buflen_used (omega (arith, some_left, none_held, r.sized)) in
      let d : Context = record c { reg = b; buflen_used = c.buflen_used + 1; reg_used = 8 } in
      let (r', less, here) =
        take_bit d
          (record {
            sized = r.sized;
            reg_small = omega arith;
            inside = omega (arith, some_left, none_held);
          })
          (omega arith) in
      (
        testbit b 7,
        record d { reg = b * 2 % 256; reg_used = 7 },
        ground (arith, empty, got, r.inside, top_bit b),
        r',
        omega (arith, less, none_held, some_left),
        filled c b none_held split ∙ here,
      )
]

-- The number of 64 bits that a list of bits is shifted into.
unfoldable pub number : ℕ → List ℕ → ℕ
number v [] = v
number v (b ∷ l) = number (bit_or (v * 2 % 2 ^ 64) b) l

read_bits_from_lem :
    (n v : ℕ) (c : Context) (l rest : List ℕ)
    → IsReading c
    → length l ≡ n
    → n ≤ left c
    → remaining c ≡ l ++ rest
    → (c' : Context) × (read_bits_from c v n ≡ some (number v l, c'))
      × IsReading c'
      × (remaining c' ≡ rest)
unfolding read_bits_from number
read_bits_from_lem zero v c [] rest r sized enough split = (c, refl, r, split)
read_bits_from_lem zero v c (b ∷ l) rest r sized enough split = absurd (omega (arith, sized))
read_bits_from_lem (suc n) v c [] rest r sized enough split = absurd (omega (arith, sized))
read_bits_from_lem (suc n) v c (b ∷ l) rest r sized enough split =
    let (b', c', done, r', less, here) = read_bit_lem c r (omega (arith, enough)) in
    let first : b' ≡ b = ground (arith, here, split) in
    let others : remaining c' ≡ l ++ rest = ground (arith, here, split) in
    let (c'', done', r'', last) =
      read_bits_from_lem n (bit_or (v * 2 % 2 ^ 64) b) c' l rest r' (omega (arith, sized))
        (omega (arith, enough, less)) others in
    (c'', rw (done, first, read_bits_from) done', r'', last)

length-low : (n v : ℕ) → length (low n v) ≡ n
unfolding low
length-low zero v = refl
length-low (suc n) v = ap suc (length-low n v)

length-bits_of : (l : List ℕ) → length (bits_of l) ≡ 8 * length l
unfolding bits_of low
length-bits_of [] = refl
length-bits_of (b ∷ l) = omega (arith, length-bits_of l)

-- A buffer that is full, and a register that is empty: the bits written are those of the buffer.
contents_full : (c : Context) → IsWriting c → room c ≡ 0 → contents c ≡ bits_of c.buf
unfolding contents room
contents_full c w full =
    let none_held : c.reg_used ≡ 0 = omega (arith, full, w.fits, w.reg_small) in
    let all_used : length c.buf ≤ c.buflen_used =
      omega (arith, full, w.fits, w.reg_small, w.sized) in
    ap₂ ◌++◌ (ap bits_of (take-all c.buflen_used c.buf all_used)) (ap (λ k. low k c.reg) none_held)
    ∙ unfold low in append-nil (bits_of c.buf)

contents-set_buffer : (buf : List ℕ) → contents (set_buffer buf) ≡ []
unfolding contents set_buffer bits_of low
contents-set_buffer buf = refl

-- A number of 64 bits is written to a buffer of at most 8 bytes, as many of its low bits as fill the
-- buffer, without a fault, and what klbs_read_bits then
-- reads from the buffer is the number with these bits, the highest first.
pub read_bits-write_bits :
    (buf : List ℕ) (v : ℕ)
    → length buf ≤ 8
    → v < 2 ^ 64
    → (c : Context) × (d : Context) × (write_bits (set_buffer buf) v (8 * length buf) ≡ some c)
      × (read_bits (set_buffer c.buf) (8 * length buf)
          ≡ some (number 0 (low (8 * length buf) v), d))
unfolding set_buffer read_bits remaining room left high
read_bits-write_bits buf v few wide =
    let n : ℕ = 8 * length buf in
    let fresh : IsWriting (set_buffer buf) = record {
      sized = refl;
      reg_small = omega arith;
      inside = omega arith;
      fits = omega arith;
    } in
    let (c, done, w, less, held) =
      write_bits-contents n v (set_buffer buf) fresh (omega arith) (omega (arith, few)) wide in
    let bits : bits_of c.buf ≡ low n v =
      sym (contents_full c w (omega (arith, less)))
      ∙ held
      ∙ ap (λ l. l ++ low n v) (contents-set_buffer buf) in
    let same_length : 8 * length c.buf ≡ n =
      sym (length-bits_of c.buf) ∙ ap length bits ∙ length-low n v in
    let (d, read, _, _) =
      read_bits_from_lem n 0 (set_buffer c.buf) (low n v) []
        (record { sized = refl; reg_small = omega arith; inside = omega arith }) (length-low n v)
        (omega (arith, same_length)) (bits ∙ sym (append-nil (low n v))) in
    (c, d, done, read)
