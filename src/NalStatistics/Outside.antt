-- ===== src/NalStatistics/Outside.antt =====
-- The statistics of a type that has none.
use ltntstools.Base.{
  ◌≡◌, refl, ℕ, zero, suc, ◌+◌, ◌≤◌, List, [], ◌∷◌, none, some, length, get_elem?, arith,
}
use ltntstools.NalStatistics.{
  h265, Library, NalThroughput, max_nals, nal_type, count_nal, one_nal, nals, measure,
}

get_elem?-past {ℓ} : {A : Type ℓ} (xs : List A) (k : ℕ) → length xs ≤ k → get_elem? xs k ≡ none
get_elem?-past [] k h = refl
get_elem?-past (x ∷ xs) zero h = absurd (omega (arith, h))
get_elem?-past (x ∷ xs) (suc k) h = get_elem?-past xs k (omega (arith, h))

-- For H.265: when the first NAL of a packet is of the type 63, its statistics are looked up outside
-- the 63 that there are, whatever the packet holds besides.
pub type_63_outside :
    (lib : Library) (bytes : List ℕ) (first b now : ℕ) (t : NalThroughput lib)
    → length t.stats ≡ max_nals
    → lib.find_header h265 bytes none ≡ some first
    → get_elem? bytes (first + 3) ≡ some b
    → nal_type h265 b ≡ 63
    → measure lib h265 now bytes t ≡ none
unfolding measure nals one_nal count_nal
type_63_outside lib bytes first b now t size is at type_63 =
    let past = get_elem?-past t.stats 63 (omega (arith, size)) in
    rw (measure, nals, is, one_nal, at, type_63, count_nal, past) refl
