-- ===== src/HashIndex/Hash.antt =====
-- The hash of a stream: its value, its range, and the one value that the table has no entry for.
use ltntstools.Base.{
  ℕ, ◌+◌, ◌*◌, ◌%◌, ◌^◌, ◌<◌, ◌≡◌, ◌↔◌, ap, arith, bit_and, bit_or, or-shift, and-0xf, and-0xfff0,
}
use ltntstools.HashIndex.{cal_hash}

-- The hash is the low twelve bits of the address above the low four bits of the port.
pub cal_hash_value : (addr port : ℕ) → cal_hash addr port ≡ addr % 4096 * 16 + port % 16
unfolding cal_hash
cal_hash_value addr port =
    let shifted : addr * 16 % 2 ^ 32 ≡ addr % 2 ^ 28 * 16 = omega arith in
    let high : bit_and (addr * 16 % 2 ^ 32) 0xfff0 ≡ addr % 4096 * 2 ^ 4 =
      omega (arith, ap (λ t. bit_and t 0xfff0) shifted, and-0xfff0 (addr % 2 ^ 28)) in
    omega (
      arith,
      ap (λ t. bit_or t (bit_and port 0xf)) high,
      ap (λ t. bit_or (addr % 4096 * 2 ^ 4) t) (and-0xf port),
      or-shift 4 (addr % 4096) (port % 16) (omega arith),
    )

pub cal_hash-lt : (addr port : ℕ) → cal_hash addr port < 2 ^ 16
cal_hash-lt addr port = omega (arith, cal_hash_value addr port)

-- The one hash that lies outside the table of 65535 entries.
pub cal_hash_outside :
    (addr port : ℕ) → (cal_hash addr port ≡ 65535) ↔ ((addr % 4096 ≡ 4095) × (port % 16 ≡ 15))
cal_hash_outside addr port = (
  (λ h. (omega (arith, cal_hash_value addr port), omega (arith, cal_hash_value addr port))),
  (λ h. omega (arith, cal_hash_value addr port)),
)
