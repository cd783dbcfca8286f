-- ===== src/BitStream/Writing.antt =====
-- What is written to the buffer, as a list of bits.
use ltntstools.Base.{
  ℕ, zero, suc, ◌+◌, ◌-◌, ◌*◌, ◌/◌, ◌%◌, ◌≤◌, ◌<◌, ◌≡◌, refl, sym, ap, ap₂, ◌∙◌, some, false, leb,
  ◌^◌, List, [], ◌∷◌, ◌++◌, arith, ◌==◌, length, take, set, bit_and, bit_or, testbit, testbit-or,
  and-pow, Bool-cases, inl, inr,
}
use mathlib.Core.List.{append-nil, append_assoc}
use ltntstools.BitStream.{Context, flush, write_bit, write_bits, write_bits_from, shift_right}

-- The low `k` bits of a byte, the highest first.
unfoldable pub low : ℕ → ℕ → List ℕ
low zero r = []
low (suc k) r = testbit r k ∷ low k r

unfoldable pub bits_of : List ℕ → List ℕ
bits_of [] = []
bits_of (b ∷ l) = low 8 b ++ bits_of l

-- The bits written so far: those of the bytes in the buffer, and those in the register.
unfoldable pub contents : Context → List ℕ
contents c = bits_of (take c.buflen_used c.buf) ++ low c.reg_used c.reg

take-set : (l : List ℕ) (n v : ℕ) → n < length l → take (suc n) (set l n v) ≡ take n l ++ v ∷ []
take-set [] n v h = absurd (omega (arith, h))
take-set (x ∷ l) zero v h = refl
take-set (x ∷ l) (suc n) v h = ap (λ t. x ∷ t) (take-set l n v (omega (arith, h)))

length-set : (l : List ℕ) (n v : ℕ) → length (set l n v) ≡ length l
length-set [] n v = refl
length-set (x ∷ l) zero v = refl
length-set (x ∷ l) (suc n) v = ap suc (length-set l n v)

bits_of-append : (xs ys : List ℕ) → bits_of (xs ++ ys) ≡ bits_of xs ++ bits_of ys
unfolding bits_of
bits_of-append [] ys = refl
bits_of-append (x ∷ xs) ys =
    ap (λ l. low 8 x ++ l) (bits_of-append xs ys)
    ∙ sym (append_assoc (low 8 x) (bits_of xs) (bits_of ys))

bits_of-one : (b : ℕ) → bits_of (b ∷ []) ≡ low 8 b
unfolding bits_of
bits_of-one b = append-nil (low 8 b)

-- The register after a bit was shifted in.
abbrev shifted : ℕ → ℕ → ℕ
shifted r bit = bit_or (r * 2 % 256) (bit_and bit 1)

testbit_zero : (k : ℕ) → testbit 0 k ≡ 0
unfolding testbit
testbit_zero zero = refl
testbit_zero (suc k) = testbit_zero k

testbit_128 : (r k : ℕ) → k < 7 → testbit (r % 128) k ≡ testbit r k
unfolding testbit
testbit_128 r zero h = omega arith
testbit_128 r (suc zero) h = omega arith
testbit_128 r (suc (suc zero)) h = omega arith
testbit_128 r (suc (suc (suc zero))) h = omega arith
testbit_128 r (suc (suc (suc (suc zero)))) h = omega arith
testbit_128 r (suc (suc (suc (suc (suc zero))))) h = omega arith
testbit_128 r (suc (suc (suc (suc (suc (suc zero)))))) h = omega arith
testbit_128 r (suc (suc (suc (suc (suc (suc (suc k))))))) h = absurd (omega (arith, h))

low_bit : (bit : ℕ) → bit_and bit 1 ≡ bit % 2
unfolding testbit
low_bit bit = and-pow bit 0 ∙ omega arith

shifted_first : (r bit : ℕ) → testbit (shifted r bit) 0 ≡ bit % 2
unfolding testbit
shifted_first r bit = omega (arith, testbit-or (r * 2 % 256) (bit_and bit 1) 0, low_bit bit)

shifted_next : (r bit k : ℕ) → k < 7 → testbit (shifted r bit) (suc k) ≡ testbit r k
unfolding testbit
shifted_next r bit k h =
    let nothing : testbit (bit_and bit 1 / 2) k ≡ 0 =
      ap (λ w. testbit w k) (omega (arith, low_bit bit)) ∙ testbit_zero k in
    let half : testbit (r * 2 % 256 / 2) k ≡ testbit r k =
      ap (λ w. testbit w k) (omega arith) ∙ testbit_128 r k h in
    omega (arith, testbit-or (r * 2 % 256) (bit_and bit 1) (suc k), nothing, half)

low-shifted : (k r bit : ℕ) → k < 8 → low (suc k) (shifted r bit) ≡ low k r ++ bit % 2 ∷ []
unfolding low
low-shifted zero r bit h = ap (λ b. b ∷ []) (shifted_first r bit)
low-shifted (suc k) r bit h =
    ap₂ ◌∷◌ (shifted_next r bit k (omega (arith, h))) (low-shifted k r bit (omega (arith, h)))

-- The register is not full between calls, and there is room for another bit.
pub record IsWriting (c : Context) : Type 0 where
  pub sized : length c.buf ≡ c.buflen
  pub reg_small : c.reg_used < 8
  pub inside : c.buflen_used ≤ c.buflen
  pub fits : c.reg_used ≤ 8 * (c.buflen - c.buflen_used)

-- How many more bits fit.
unfoldable pub room : Context → ℕ
room c = 8 * (c.buflen - c.buflen_used) - c.reg_used

-- Where a bit fits, writing it appends it to what has been written.
pub write_bit_lem :
    (c : Context) (bit : ℕ)
    → IsWriting c
    → 0 < room c
    → (c' : Context) × (write_bit c bit ≡ some c')
      × IsWriting c'
      × (room c ≡ room c' + 1)
      × (contents c' ≡ contents c ++ bit % 2 ∷ [])
unfolding write_bit flush room contents low
write_bit_lem c bit w free = elim (Bool-cases (c.reg_used == 7)) [
  | inr more ↦ (
    record c { reg = shifted c.reg bit; reg_used = c.reg_used + 1 },
    ground (arith, w.reg_small, w.inside, more),
    record {
      sized = w.sized;
      reg_small = ground (arith, w.reg_small, more);
      inside = w.inside;
      fits = omega (arith, free);
    },
    omega (arith, free),
    ap (λ l. bits_of (take c.buflen_used c.buf) ++ l)
          (ap (λ k. low k (shifted c.reg bit))
              (let e : c.reg_used + 1 ≡ suc c.reg_used = omega arith in e)
            ∙ low-shifted c.reg_used c.reg bit w.reg_small)
        ∙ sym (
            append_assoc (bits_of (take c.buflen_used c.buf)) (low c.reg_used c.reg)
              (bit % 2 ∷ [])),
  )
  | inl full ↦
      let seven : c.reg_used ≡ 7 = ground (arith, full) in
      let used : c.buflen_used < c.buflen = omega (arith, free, seven) in
      (
        record c {
          buf = set c.buf c.buflen_used (shifted c.reg bit);
          buflen_used = c.buflen_used + 1;
          reg_used = 0;
          reg = shifted c.reg bit;
        },
        ground (arith, seven, used),
        record {
          sized = length-set c.buf c.buflen_used (shifted c.reg bit) ∙ w.sized;
          reg_small = omega arith;
          inside = omega (arith, used);
          fits = omega arith;
        },
        omega (arith, free, seven, used),
        (let written : bits_of
                  (take (c.buflen_used + 1) (set c.buf c.buflen_used (shifted c.reg bit)))
                ≡ bits_of (take c.buflen_used c.buf) ++ low 8 (shifted c.reg bit) =
              ap (λ n. bits_of (take n (set c.buf c.buflen_used (shifted c.reg bit))))
                (let e : c.buflen_used + 1 ≡ suc c.buflen_used = omega arith in e)
              ∙ ap bits_of
                  (take-set c.buf c.buflen_used (shifted c.reg bit) (omega (arith, used, w.sized)))
              ∙ bits_of-append (take c.buflen_used c.buf) (shifted c.reg bit ∷ [])
              ∙ ap (λ l. bits_of (take c.buflen_used c.buf) ++ l)
                  (bits_of-one (shifted c.reg bit)) in
            let eight : low 8 (shifted c.reg bit) ≡ low c.reg_used c.reg ++ bit % 2 ∷ [] =
              low-shifted 7 c.reg bit (omega arith)
              ∙ ap (λ k. low k c.reg ++ bit % 2 ∷ []) (sym seven) in
            ap (λ l. l ++ low 0 (shifted c.reg bit)) written
            ∙ append-nil _
            ∙ ap (λ l. bits_of (take c.buflen_used c.buf) ++ l) eight
            ∙ sym (
                append_assoc (bits_of (take c.buflen_used c.buf)) (low c.reg_used c.reg)
                  (bit % 2 ∷ []))),
      )
]

testbit-shift_right : (w k : ℕ) → shift_right w k % 2 ≡ testbit w k
unfolding shift_right testbit
testbit-shift_right w zero = refl
testbit-shift_right w (suc k) = testbit-shift_right (w / 2) k

write_bits_from-contents :
    (n bits : ℕ) (c : Context)
    → IsWriting c
    → n ≤ room c
    → n ≤ 64
    → (c' : Context) × (write_bits_from c bits n ≡ some c')
      × IsWriting c'
      × (room c ≡ room c' + n)
      × (contents c' ≡ contents c ++ low n bits)
unfolding write_bits_from low
write_bits_from-contents zero bits c w fits few = (c, refl, w, omega arith, sym (append-nil _))
write_bits_from-contents (suc n) bits c w fits few =
    let (c', done, w', less, here) = write_bit_lem c (shift_right bits n) w (omega (arith, fits)) in
    let (c'', done', w'', less', there) =
      write_bits_from-contents n bits c' w' (omega (arith, fits, less)) (omega (arith, few)) in
    let small : leb 64 n ≡ false = ground (arith, few) in
    (
      c'',
      rw (small, done, write_bits_from) done',
      w'',
      omega (arith, less, less'),
      there
          ∙ ap (λ l. l ++ low n bits) here
          ∙ append_assoc (contents c) (shift_right bits n % 2 ∷ []) (low n bits)
          ∙ ap (λ b. contents c ++ b ∷ low n bits) (testbit-shift_right bits n),
    )

-- Where at most 64 bits of a number of 64 bits fit and the register is not full, klbs_write_bits
-- appends the low `n` bits of the number, the highest first, and takes as much room as they are.
pub write_bits-contents :
    (n bits : ℕ) (c : Context)
    → IsWriting c
    → n ≤ room c
    → n ≤ 64
    → bits < 2 ^ 64
    → (c' : Context) × (write_bits c bits n ≡ some c')
      × IsWriting c'
      × (room c ≡ room c' + n)
      × (contents c' ≡ contents c ++ low n bits)
unfolding write_bits
write_bits-contents n bits c w fits few wide =
    let same : bits % 2 ^ 64 ≡ bits = omega (arith, wide) in
    let (c', done, w', less, here) = write_bits_from-contents n bits c w fits few in
    (c', rw same done, w', less, here)
