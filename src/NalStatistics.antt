-- ===== src/NalStatistics.antt =====
-- The throughput of the kinds of NAL units (src/pes_inspector.c: _pes_packet_measure_nal_throughput).
-- What libltntools gives, the search for a header and the throughput handles, is an argument.
pub mod Shares
pub mod Outside
mod Tests
use ltntstools.Base.{
  ℕ, zero, suc, ◌+◌, ◌-◌, ◌*◌, ◌/◌, ◌%◌, ◌^◌, bit_and, Bool, true, false, ◌||◌, ◌==◌, Option, none,
  some, List, [], ◌∷◌, map, if◌then◌else◌, length, get_elem?, set,
}

pub data Codec : Type 0 where
  h264 h265 : Codec

-- `find_header` gives the first header after an offset, where `none` is the offset -1 and no header.
pub record Library : Type 1 where
  pub Handle : Type 0
  pub write : Handle → ℕ → Handle
  pub sum_total : Handle → ℕ
  pub expire : Handle → Handle
  pub find_header : Codec → List ℕ → Option ℕ → Option ℕ

-- struct nal_statistic_s and nal_throughput_s.
pub record NalStatistic (lib : Library) : Type 0 where
  pub enabled : Bool
  pub total_count : ℕ
  pub bps : ℕ
  pub throughput_ctx : lib.Handle

pub record NalThroughput (lib : Library) : Type 0 where
  pub last_report : ℕ
  pub throughput_ctx : lib.Handle
  pub bps : ℕ
  pub stats : List (NalStatistic lib)

abbrev pub max_nals : ℕ
max_nals = 63

unfoldable pub nal_type : Codec → ℕ → ℕ
nal_type h264 b = bit_and b 0x1f
nal_type h265 b = bit_and (b / 2) 0x3f

-- An index past the end of `stats` is a fault, `none`.
unfoldable pub count_nal :
    (lib : Library) → List (NalStatistic lib) → ℕ → Option (List (NalStatistic lib))
count_nal lib stats k = elim (get_elem? stats k) [
  | none ↦ none
  | some nt ↦ some (set stats k (record nt { enabled = true; total_count = nt.total_count + 1 }))
]

unfoldable pub share :
    (lib : Library) → List (NalStatistic lib) → ℕ → ℕ → Option (List (NalStatistic lib))
share lib stats k bits = elim (get_elem? stats k) [
  | none ↦ none
  | some nt ↦ some (set stats k (record nt { throughput_ctx = lib.write nt.throughput_ctx bits }))
]

-- The share of the NAL before, if there is one, up to an offset.
unfoldable pub share_prev :
    (lib : Library) → List (NalStatistic lib) → Option ℕ → ℕ → ℕ → Option (List (NalStatistic lib))
unfolding share
share_prev lib stats none last_offset offset = some stats
share_prev lib stats (some prev) last_offset offset =
    share lib stats prev ((offset - last_offset) * 8)

-- The NAL at `offset`: its type, and the statistics with it and the share of the one before.
unfoldable pub one_nal :
    (lib : Library)
    → Codec
    → List ℕ
    → List (NalStatistic lib)
    → Option ℕ
    → ℕ
    → ℕ
    → Option (ℕ × List (NalStatistic lib))
unfolding nal_type count_nal share_prev
one_nal lib codec bytes stats prev last_offset offset = elim (get_elem? bytes (offset + 3)) [
  | none ↦ none
  | some b ↦ elim (count_nal lib stats (nal_type codec b)) [
    | none ↦ none
    | some counted ↦ elim (share_prev lib counted prev last_offset offset) [
      | none ↦ none
      | some shared ↦ some (nal_type codec b, shared)
    ]
  ]
]

-- The offset that the next share is counted from: the first NAL leaves it at the start.
unfoldable pub next_last : Option ℕ → ℕ → ℕ → ℕ
next_last none last_offset offset = last_offset
next_last (some prev) last_offset offset = offset

-- The loop on fuel; without fuel it is a fault as well.
unfoldable pub nals :
    (lib : Library)
    → Codec
    → List ℕ
    → ℕ
    → List (NalStatistic lib)
    → Option ℕ
    → Option ℕ
    → ℕ
    → Option (List (NalStatistic lib))
unfolding one_nal next_last share_prev
nals lib codec bytes zero stats prev offset last_offset = none
nals lib codec bytes (suc n) stats prev offset last_offset =
    elim (lib.find_header codec bytes offset) [
      | none ↦ share_prev lib stats prev last_offset (length bytes)
      | some found ↦ elim (one_nal lib codec bytes stats prev last_offset found) [
        | none ↦ none
        | some (k, counted) ↦
            nals lib codec bytes n counted (some k) (some found) (next_last prev last_offset found)
      ]
    ]

unfoldable pub report_nal : (lib : Library) → NalStatistic lib → NalStatistic lib
report_nal lib nt =
    if nt.enabled
    then record nt {
      bps = lib.sum_total nt.throughput_ctx;
      throughput_ctx = lib.expire nt.throughput_ctx;
    }
    else nt

-- The summary of once a second.
unfoldable pub report : (lib : Library) → ℕ → NalThroughput lib → NalThroughput lib
unfolding report_nal
report lib now t = if now == t.last_report then t else record {
  last_report = now;
  throughput_ctx = lib.expire t.throughput_ctx;
  bps = lib.sum_total t.throughput_ctx;
  stats = map (report_nal lib) t.stats;
}

-- For the bytes of a PES packet.
unfoldable pub measure :
    (lib : Library) → Codec → ℕ → List ℕ → NalThroughput lib → Option (NalThroughput lib)
unfolding nals report
measure lib codec now bytes t =
    elim (nals lib codec bytes (suc (suc (length bytes))) t.stats none none 0) [
      | none ↦ none
      | some stats ↦ some (
          report lib now (record t {
            throughput_ctx = lib.write t.throughput_ctx (length bytes * 8);
            stats = stats;
          }))
    ]
