-- ===== src/Slicer/Tests.antt =====
-- The theorems about the slicer at an index of two streams.
use ltntstools.Base.{ℕ, ◌*◌, ◌^◌, ◌<◌, some, ◌/◌, ◌≡◌, refl, List, [], ◌∷◌, arith}
use ltntstools.Slicer.{
  VideoTime, pcr_to_videotime, signed_seconds, split_seconds, videotime_to_pcr, Position, Extent,
}
use ltntstools.Statistics.{pos, negsuc, to_int, residue}
use ltntstools.Slicer.Times.{whole, videotime_to_pcr-pcr_to_videotime}

-- Three hours and a bit.
videotime_to_pcr-pcr_to_videotime_example :
    (d : ℕ) × (h : ℕ) × (m : ℕ) × (s : ℕ) × (pcr_to_videotime (pos 300000000123) ≡ whole d h m s)
    × (h < 24)
    × (m < 60)
    × (s < 60)
    × (videotime_to_pcr (pcr_to_videotime (pos 300000000123))
        ≡ some (pos (300000000123 / 27000000 * 27000000)))
videotime_to_pcr-pcr_to_videotime_example =
    videotime_to_pcr-pcr_to_videotime 300000000123 (omega arith)

abbrev time : VideoTime
time = whole 1 23 59 58

-- The number of seconds is one too many for an int.
wraps : (pcr_to_videotime (pos (2 ^ 31 * 27000000))).days ≡ negsuc 24854
unfolding pcr_to_videotime signed_seconds split_seconds to_int residue
wraps = refl

abbrev entry_of : ℕ → ℕ → Position
entry_of pid pcr = record { pid = pid; offset = 188 * pcr; pcr = pcr }

abbrev index : List Position
index = entry_of 49 10 ∷ entry_of 50 5 ∷ entry_of 49 20 ∷ []

abbrev nothing_known : Extent
nothing_known = record { first = 0; last = 0; duration = 0; stream_time = time }
