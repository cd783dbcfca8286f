-- ===== src/NalStatistics/Shares.antt =====
-- What the kinds of NAL units are given of a packet.
use ltntstools.Base.{
  ◌≡◌, refl, ap, ◌∙◌, inl, inr, ℕ, zero, suc, ◌+◌, ◌-◌, ◌*◌, ◌≤◌, ◌<◌, true, Option, none, some,
  List, [], ◌∷◌, length, get_elem?, set, arith, Option-cases, length-set, and-le, ==_refl,
}
use ltntstools.NalStatistics.{
  Codec, h264, Library, NalStatistic, NalThroughput, max_nals, nal_type, count_nal, share,
  share_prev, one_nal, next_last, nals, report, measure,
}

-- Past the offset before, if there is one.
abbrev pub IsAfter : Option ℕ → ℕ → Type 0
IsAfter none found = Unit
IsAfter (some offset) found = offset < found

-- A header that is found lies after the offset and, with the byte of its type, inside the packet.
abbrev pub Finds : Library → Type 0
Finds lib =
    (codec : Codec) (bytes : List ℕ) (offset : Option ℕ) (found : ℕ)
    → lib.find_header codec bytes offset ≡ some found
    → IsAfter offset found × (found + 3 < length bytes)

-- What is written to a handle is added to its sum.
abbrev pub Sums : Library → Type 0
Sums lib = (h : lib.Handle) (v : ℕ) → lib.sum_total (lib.write h v) ≡ lib.sum_total h + v

abbrev pub bits : (lib : Library) → List (NalStatistic lib) → ℕ
bits lib [] = 0
bits lib (nt ∷ stats) = lib.sum_total nt.throughput_ctx + bits lib stats

abbrev sum_of : (lib : Library) → Option (NalStatistic lib) → ℕ
sum_of lib none = 0
sum_of lib (some nt) = lib.sum_total nt.throughput_ctx

bits-set :
    (lib : Library) (stats : List (NalStatistic lib)) (k : ℕ) (old new : NalStatistic lib)
    → get_elem? stats k ≡ some old
    → bits lib (set stats k new) + lib.sum_total old.throughput_ctx
      ≡ bits lib stats + lib.sum_total new.throughput_ctx
bits-set lib [] k old new at = cc
bits-set lib (nt ∷ stats) zero old new at = let same = ap (sum_of lib) at in omega (arith, same)
bits-set lib (nt ∷ stats) (suc k) old new at = omega (arith, bits-set lib stats k old new at)

get_elem?-inside {ℓ} :
    {A : Type ℓ} (xs : List A) (k : ℕ) → k < length xs → (v : A) × (get_elem? xs k ≡ some v)
get_elem?-inside [] k h = absurd (omega (arith, h))
get_elem?-inside (x ∷ xs) zero h = (x, refl)
get_elem?-inside (x ∷ xs) (suc k) h = get_elem?-inside xs k (omega (arith, h))

-- The statistics after a step, with `more` bits in them.
abbrev Grown :
    (lib : Library) → List (NalStatistic lib) → Option (List (NalStatistic lib)) → ℕ → Type 0
Grown lib stats result more =
    (after : List (NalStatistic lib)) × (result ≡ some after)
    × (length after ≡ length stats)
    × (bits lib after ≡ bits lib stats + more)

count_nal-Grown :
    (lib : Library) (stats : List (NalStatistic lib)) (k : ℕ)
    → k < length stats
    → Grown lib stats (count_nal lib stats k) 0
unfolding count_nal
count_nal-Grown lib stats k inside =
    let (nt, at) = get_elem?-inside stats k inside in
    let new : NalStatistic lib = record nt { enabled = true; total_count = nt.total_count + 1 } in
    rw (count_nal, at)
      (set stats k new, refl, length-set stats k new, omega (arith, bits-set lib stats k nt new at))

share-Grown :
    (lib : Library) (stats : List (NalStatistic lib)) (k more : ℕ)
    → Sums lib
    → k < length stats
    → Grown lib stats (share lib stats k more) more
unfolding share
share-Grown lib stats k more sums inside =
    let (nt, at) = get_elem?-inside stats k inside in
    let new : NalStatistic lib = record nt { throughput_ctx = lib.write nt.throughput_ctx more } in
    rw (share, at)
      (
        set stats k new,
        refl,
        length-set stats k new,
        omega (arith, bits-set lib stats k nt new at, sums nt.throughput_ctx more),
      )

h264_type : (b : ℕ) → nal_type h264 b < max_nals
unfolding nal_type
h264_type b = omega (arith, and-le b 0x1f)

abbrev HasPlace : Option ℕ → Type 0
HasPlace none = Unit
HasPlace (some prev) = prev < max_nals

-- The share of the NAL before.
abbrev due : Option ℕ → ℕ → ℕ → ℕ
due none last_offset offset = 0
due (some prev) last_offset offset = (offset - last_offset) * 8

share_prev-Grown :
    (lib : Library) (stats : List (NalStatistic lib)) (prev : Option ℕ) (last_offset offset : ℕ)
    → Sums lib
    → length stats ≡ max_nals
    → HasPlace prev
    → Grown lib stats (share_prev lib stats prev last_offset offset) (due prev last_offset offset)
unfolding share_prev
share_prev-Grown lib stats none last_offset offset sums size place =
    (stats, refl, refl, omega arith)
share_prev-Grown lib stats (some prev) last_offset offset sums size place =
    share-Grown lib stats prev ((offset - last_offset) * 8) sums (omega (arith, size, place))

one_nal-Grown :
    (lib : Library) (bytes : List ℕ) (stats : List (NalStatistic lib)) (prev : Option ℕ)
    (last_offset found : ℕ)
    → Sums lib
    → length stats ≡ max_nals
    → HasPlace prev
    → found + 3 < length bytes
    → (k : ℕ) × (after : List (NalStatistic lib)) × (one_nal lib h264 bytes stats prev last_offset
          found
        ≡ some (k, after))
      × (k < max_nals)
      × (length after ≡ max_nals)
      × (bits lib after ≡ bits lib stats + due prev last_offset found)
unfolding one_nal
one_nal-Grown lib bytes stats prev last_offset found sums size place inside =
    let (b, at) = get_elem?-inside bytes (found + 3) inside in
    let k = nal_type h264 b in
    let (counted, is, same, plus) =
      count_nal-Grown lib stats k (omega (arith, h264_type b, size)) in
    let (after, is', same', plus') =
      share_prev-Grown lib counted prev last_offset found sums (same ∙ size) place in
    (
      k,
      after,
      rw (one_nal, at, is, is') refl,
      h264_type b,
      same' ∙ same ∙ size,
      omega (arith, plus, plus'),
    )

-- From a NAL on, to the end of the packet.
nals-Grown :
    (lib : Library) (bytes : List ℕ) (n : ℕ) (stats : List (NalStatistic lib))
    (prev offset last_offset : ℕ)
    → Sums lib
    → Finds lib
    → length stats ≡ max_nals
    → prev < max_nals
    → last_offset ≤ offset
    → offset < length bytes
    → length bytes < n + offset
    → Grown lib stats
        (nals lib h264 bytes n stats (some prev) (some offset) last_offset)
        ((length bytes - last_offset) * 8)
unfolding nals
nals-Grown lib bytes zero stats prev offset last_offset sums finds size place before inside fuel =
    absurd (omega (arith, inside, fuel))
nals-Grown lib bytes (suc n) stats prev offset last_offset sums finds size place before inside
      fuel =
    elim (Option-cases (lib.find_header h264 bytes (some offset))) [
      | inl at_end ↦
          rw (nals, at_end)
            (share_prev-Grown lib stats (some prev) last_offset (length bytes) sums size place)
      | inr (found, is) ↦
          let (later, fits) = finds h264 bytes (some offset) found is in
          let (k, counted, one, place', size', plus) =
            one_nal-Grown lib bytes stats (some prev) last_offset found sums size place fits in
          let (after, result, same, plus') =
            nals-Grown lib bytes n counted k found found sums finds size' place' (omega arith)
              (omega (arith, fits)) (omega (arith, fuel, later)) in
          (
            after,
            rw (nals, is, one, next_last) result,
            omega (arith, same, size', size),
            omega (arith, plus, plus', before, later, fits),
          )
    ]

-- The part of the packet that the kinds share: all, if there is a header.
abbrev pub shared : Option ℕ → ℕ → ℕ
shared none size = 0
shared (some first) size = size * 8

started-Grown :
    (lib : Library) (bytes : List ℕ) (stats : List (NalStatistic lib)) (o : Option ℕ)
    → Sums lib
    → Finds lib
    → length stats ≡ max_nals
    → lib.find_header h264 bytes none ≡ o
    → Grown lib stats
        (nals lib h264 bytes (suc (suc (length bytes))) stats none none 0)
        (shared o (length bytes))
unfolding nals
started-Grown lib bytes stats none sums finds size is =
    rw (nals, is, share_prev) (stats, refl, refl, omega arith)
started-Grown lib bytes stats (some first) sums finds size is =
    let (any, fits) = finds h264 bytes none first is in
    let (k, counted, one, place, size', plus) =
      one_nal-Grown lib bytes stats none 0 first sums size tt fits in
    let (after, result, same, plus') =
      nals-Grown lib bytes (suc (length bytes)) counted k first 0 sums finds size' place
        (omega arith) (omega (arith, fits)) (omega arith) in
    (
      after,
      rw (nals, is, one, next_last) result,
      omega (arith, same, size', size),
      omega (arith, plus, plus'),
    )

-- For H.264, in a second whose summary has been made: no access is outside the 63 statistics and
-- the loop ends. If the packet has a header, the sums of the kinds grow together by the bits of
-- the whole packet, and else not; the sum of the stream grows by them in both cases.
pub measure-shared :
    (lib : Library) (bytes : List ℕ) (now : ℕ) (t : NalThroughput lib)
    → Sums lib
    → Finds lib
    → length t.stats ≡ max_nals
    → now ≡ t.last_report
    → (after : NalThroughput lib) × (measure lib h264 now bytes t ≡ some after)
      × (length after.stats ≡ max_nals)
      × (bits lib after.stats
          ≡ bits lib t.stats + shared (lib.find_header h264 bytes none) (length bytes))
      × (lib.sum_total after.throughput_ctx ≡ lib.sum_total t.throughput_ctx + length bytes * 8)
unfolding measure report
measure-shared lib bytes now t sums finds size same_second =
    let (stats, is, same, plus) =
      started-Grown lib bytes t.stats (lib.find_header h264 bytes none) sums finds size refl in
    let after : NalThroughput lib = record t {
      throughput_ctx = lib.write t.throughput_ctx (length bytes * 8);
      stats = stats;
    } in
    (
      after,
      rw (measure, is, report, same_second, ==_refl t.last_report) refl,
      same ∙ size,
      plus,
      sums t.throughput_ctx (length bytes * 8),
    )
