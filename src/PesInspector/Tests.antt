-- ===== src/PesInspector/Tests.antt =====
-- Units with emulation prevention.
use ltntstools.Base.{◌≡◌, refl, ℕ, List, [], ◌∷◌, length}
use ltntstools.PesInspector.{strip_emulation_prevention, scan, strip_after, shift, is_emulation}
use ltntstools.PesInspector.Strip.{bytes_of, removed, strip-removed}
use ltntstools.PesInspector.Escape.{escape, strip-escape}

-- A picture timing message, of six hours.
abbrev timing : List ℕ
timing = 0 ∷ 0 ∷ 1 ∷ 6 ∷ 1 ∷ 9 ∷ 0x3b ∷ 0x34 ∷ 0 ∷ 0 ∷ 3 ∷ 0 ∷ 0x80 ∷ 0 ∷ 0 ∷ 0x20 ∷ 0x80 ∷ []

test_timing :
    bytes_of (strip_emulation_prevention timing)
    ≡ 0 ∷ 0 ∷ 1 ∷ 6 ∷ 1 ∷ 9 ∷ 0x3b ∷ 0x34 ∷ 0 ∷ 0 ∷ 0 ∷ 0x80 ∷ 0 ∷ 0 ∷ 0x20 ∷ 0x80 ∷ []
unfolding strip_emulation_prevention scan strip_after shift is_emulation
test_timing = refl

-- Three zeroes and a 3, as they are sent: the 3 is lost.
test_lost :
    bytes_of (strip_emulation_prevention (6 ∷ 0 ∷ 0 ∷ 3 ∷ 0 ∷ 3 ∷ 0x80 ∷ []))
    ≡ 6 ∷ 0 ∷ 0 ∷ 0 ∷ 0x80 ∷ []
unfolding strip_emulation_prevention scan strip_after shift is_emulation
test_lost = refl

strip-removed_example :
    (bytes_of (strip_emulation_prevention (6 ∷ 0 ∷ 0 ∷ 3 ∷ 1 ∷ []))
      ≡ 6 ∷ removed 4 (0 ∷ 0 ∷ 3 ∷ 1 ∷ []))
    × ((strip_emulation_prevention (6 ∷ 0 ∷ 0 ∷ 3 ∷ 1 ∷ [])).length_bytes
        ≡ length (6 ∷ removed 4 (0 ∷ 0 ∷ 3 ∷ 1 ∷ [])))
strip-removed_example = strip-removed 6 (0 ∷ 0 ∷ 3 ∷ 1 ∷ [])

strip-escape_example :
    bytes_of
      (strip_emulation_prevention (0 ∷ escape 0 (0 ∷ 1 ∷ 6 ∷ 0 ∷ 0 ∷ 0 ∷ 0 ∷ 2 ∷ 0 ∷ 0 ∷ 3 ∷ [])))
    ≡ 0 ∷ 0 ∷ 1 ∷ 6 ∷ 0 ∷ 0 ∷ 0 ∷ 0 ∷ 2 ∷ 0 ∷ 0 ∷ 3 ∷ []
strip-escape_example =
    strip-escape 0 (0 ∷ 1 ∷ 6 ∷ 0 ∷ 0 ∷ 0 ∷ 0 ∷ 2 ∷ 0 ∷ 0 ∷ 3 ∷ [])
      (refl, (refl, (refl, (refl, (refl, (refl, (refl, (refl, (refl, (refl, (refl, tt)))))))))))
