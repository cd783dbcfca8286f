-- ===== src/PesInspector.antt =====
-- The removal of emulation prevention bytes from a NAL unit, as in src/pes_inspector.c and, in a copy,
-- in src/caption_analyzer.c. The overlapping memcpy is taken to move its bytes, as memmove does.
pub mod Strip
pub mod Escape
mod Tests
use ltntstools.Base.{ℕ, zero, suc, ◌+◌, ◌-◌, Bool, ◌&&◌, List, [], ◌∷◌, ◌==◌, if◌then◌else◌, length}

-- struct ltn_nal_headers_s in the fields used: the bytes, and how many of them count.
pub record Nal : Type 0 where
  pub ptr : List ℕ
  pub length_bytes : ℕ

unfoldable pub is_emulation : ℕ → ℕ → ℕ → Bool
is_emulation x y z = x == 0 && (y == 0 && z == 3)

-- The bytes after `z` moved over it: the last byte is then there twice.
unfoldable pub shift : ℕ → List ℕ → List ℕ
shift z [] = z ∷ []
shift z (w ∷ t) = w ∷ shift w t

-- What follows the byte `x` at i, after the round at i, and whether a byte was dropped.
unfoldable pub strip_after : ℕ → List ℕ → List ℕ × ℕ
unfolding is_emulation shift
strip_after x (y ∷ z ∷ t) = if is_emulation x y z then (y ∷ shift z t, 1) else (y ∷ z ∷ t, 0)
strip_after x rest = (rest, 0)

-- The rounds that are left, on the bytes from i on: the bytes after all of them, and `dropped`.
unfoldable pub scan : ℕ → List ℕ → List ℕ × ℕ
unfolding strip_after
scan zero bytes = (bytes, 0)
scan (suc n) [] = ([], 0)
scan (suc n) (x ∷ rest) =
    let (after, d) = strip_after x rest in
    let (bytes, dropped) = scan n after in (x ∷ bytes, d + dropped)

-- ltn_nal_h264_strip_emulation_prevention, where all the bytes count.
unfoldable pub strip_emulation_prevention : List ℕ → Nal
unfolding scan
strip_emulation_prevention [] = record { ptr = []; length_bytes = 0 }
strip_emulation_prevention (b ∷ rest) =
    let (bytes, dropped) = scan (length rest) rest in
    record { ptr = b ∷ bytes; length_bytes = suc (length rest) - dropped }
