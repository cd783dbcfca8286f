-- ===== src/NalStatistics/Tests.antt =====
-- Packets of a few bytes, with a search for the start codes 00 00 01.
use ltntstools.Base.{
  ◌≡◌, refl, inl, inr, ℕ, zero, suc, ◌+◌, ◌*◌, ◌≤◌, ◌<◌, Bool, true, false, ◌&&◌, Option, none,
  some, List, [], ◌∷◌, length, get_elem?, drop, arith, Bool-cases, if◌then◌else◌, ◌==◌, length-drop,
}
use ltntstools.NalStatistics.{
  Codec, h264, h265, Library, NalStatistic, NalThroughput, nal_type, nals, one_nal, next_last,
  share_prev, share, count_nal, report, report_nal, measure,
}
use ltntstools.NalStatistics.Shares.{Finds, bits, shared, measure-shared}
use ltntstools.NalStatistics.Outside.{type_63_outside}

abbrev starts : List ℕ → Bool
starts (x ∷ y ∷ z ∷ w ∷ t) = x == 0 && (y == 0 && z == 1)
starts _ = false

unfoldable search : ℕ → List ℕ → Option ℕ
search at [] = none
search at (x ∷ t) = let later = search (at + 1) t in if starts (x ∷ t) then some at else later

starts_long : (r : List ℕ) → starts r ≡ true → 3 < length r
starts_long [] h = cc
starts_long (x ∷ []) h = cc
starts_long (x ∷ y ∷ []) h = cc
starts_long (x ∷ y ∷ z ∷ []) h = cc
starts_long (x ∷ y ∷ z ∷ w ∷ t) h = omega arith

search-inside :
    (at : ℕ) (r : List ℕ) (found : ℕ)
    → search at r ≡ some found
    → (at ≤ found) × (found + 3 < at + length r)
unfolding search
search-inside at [] found h = cc
search-inside at (x ∷ t) found h = elim (Bool-cases (starts (x ∷ t))) [
  | inl here ↦ let long = starts_long (x ∷ t) here in ground arith
  | inr later ↦
      let (after, inside) = search-inside (at + 1) t found (ground arith) in
      (omega (arith, after), omega (arith, inside))
]

abbrev find : Codec → List ℕ → Option ℕ → Option ℕ
find codec bytes none = search 0 bytes
find codec bytes (some offset) = search (offset + 1) (drop (offset + 1) bytes)

abbrev lib : Library
lib = record {
  Handle = ℕ;
  write = λ h v. h + v;
  sum_total = λ h. h;
  expire = λ h. 0;
  find_header = find;
}

lib-Finds : Finds lib
lib-Finds codec bytes none found h = (tt, omega (arith, (search-inside 0 bytes found h).1))
lib-Finds codec bytes (some offset) found h =
    let (after, inside) = search-inside (offset + 1) (drop (offset + 1) bytes) found h in
    (omega (arith, after), omega (arith, after, inside, length-drop (offset + 1) bytes))

abbrev idle : ℕ → List (NalStatistic lib)
idle zero = []
idle (suc n) = record { enabled = false; total_count = 0; bps = 0; throughput_ctx = 0 } ∷ idle n

abbrev throughput : NalThroughput lib
throughput = record { last_report = 7; throughput_ctx = 0; bps = 0; stats = idle 63 }

-- A parameter set of six bytes, and a slice of five.
abbrev packet : List ℕ
packet = 0 ∷ 0 ∷ 1 ∷ 0x67 ∷ 1 ∷ 2 ∷ 0 ∷ 0 ∷ 1 ∷ 0x41 ∷ 5 ∷ []

abbrev counts : Option (NalThroughput lib) → ℕ → Option (ℕ × ℕ × ℕ)
counts none k = none
counts (some t) k = elim (get_elem? t.stats k) [
  | none ↦ none
  | some nt ↦ some (nt.total_count, nt.throughput_ctx, nt.bps)
]

test_set : counts (measure lib h264 7 packet throughput) 7 ≡ some (1, 48, 0)
unfolding measure nals one_nal next_last share_prev share count_nal report report_nal nal_type
    search
test_set = refl

-- With the summary.
test_slice : counts (measure lib h264 8 packet throughput) 1 ≡ some (1, 0, 40)
unfolding measure nals one_nal next_last share_prev share count_nal report report_nal nal_type
    search
test_slice = refl

measure-shared_example :
    (after : NalThroughput lib) × (measure lib h264 7 packet throughput ≡ some after)
    × (length after.stats ≡ 63)
    × (bits lib after.stats ≡ bits lib (idle 63) + shared (find h264 packet none) 11)
    × (after.throughput_ctx ≡ 0 + 11 * 8)
measure-shared_example = measure-shared lib packet 7 throughput (λ h v. refl) lib-Finds refl refl

abbrev odd : List ℕ
odd = 0 ∷ 0 ∷ 1 ∷ 0x7e ∷ 1 ∷ []

odd_first : find h265 odd none ≡ some 0
unfolding search
odd_first = refl

odd_type : nal_type h265 0x7e ≡ 63
unfolding nal_type
odd_type = refl

type_63_outside_example : measure lib h265 7 odd throughput ≡ none
type_63_outside_example = type_63_outside lib odd 0 0x7e 7 throughput refl odd_first refl odd_type
