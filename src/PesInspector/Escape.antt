-- ===== src/PesInspector/Escape.antt =====
-- Emulation prevention as the standard inserts it (ISO 14496-10, 7.3.1), and its removal.
use ltntstools.Base.{
  ◌≡◌, ◌≢◌, refl, ap, ◌∙◌, inl, inr, ℕ, zero, suc, ◌≤◌, Bool, false, ◌&&◌, List, [], ◌∷◌, leb, ◌==◌,
  if◌then◌else◌, length, arith, Bool-cases, leb→le, ◌<◌,
}
use ltntstools.PesInspector.{is_emulation, strip_emulation_prevention}
use ltntstools.PesInspector.Strip.{removed, bytes_of, strip-removed}

-- After two zeroes, a byte of at most 3 comes behind a byte 3.
unfoldable pub escape : ℕ → List ℕ → List ℕ
escape n [] = []
escape n (b ∷ p) =
    let guarded = leb 2 n && leb b 3 in
    let rest = escape (if b == 0 then (if guarded then 1 else suc n) else 0) p in
    if guarded then 3 ∷ b ∷ rest else b ∷ rest

abbrev is_lost : List ℕ → Bool
is_lost (x ∷ y ∷ z ∷ w ∷ t) = x == 0 && (y == 0 && (z == 0 && w == 3))
is_lost _ = false

-- Nowhere three zeroes and a 3.
abbrev pub Free : List ℕ → Type 0
Free [] = Unit
Free (x ∷ t) = (is_lost (x ∷ t) ≡ false) × Free t

removed_enough : (n m : ℕ) (r : List ℕ) → length r ≤ n → length r ≤ m → removed n r ≡ removed m r
unfolding removed
removed_enough zero zero r h k = refl
removed_enough zero (suc m) [] h k = refl
removed_enough zero (suc m) (x ∷ r) h k = absurd (omega (arith, h))
removed_enough (suc n) zero [] h k = refl
removed_enough (suc n) zero (x ∷ r) h k = absurd (omega (arith, k))
removed_enough (suc n) (suc m) [] h k = refl
removed_enough (suc n) (suc m) (x ∷ []) h k = refl
removed_enough (suc n) (suc m) (x ∷ y ∷ []) h k = refl
removed_enough (suc n) (suc m) (x ∷ y ∷ z ∷ t) h k = elim (Bool-cases (is_emulation x y z)) [
  | inl dropped ↦
      rw dropped
        (ap (λ u. x ∷ u) (removed_enough n m (y ∷ t) (omega (arith, h)) (omega (arith, k))))
  | inr kept ↦
      rw kept
        (ap (λ u. x ∷ u) (removed_enough n m (y ∷ z ∷ t) (omega (arith, h)) (omega (arith, k))))
]

abbrev clean : List ℕ → List ℕ
clean r = removed (length r) r

clean-drop : (t : List ℕ) → clean (0 ∷ 0 ∷ 3 ∷ t) ≡ 0 ∷ clean (0 ∷ t)
unfolding removed is_emulation
clean-drop t =
    ap (λ u. 0 ∷ u)
      (removed_enough (suc (suc (length t))) (suc (length t)) (0 ∷ t) (omega arith) (omega arith))

clean-keep :
    (x y z : ℕ) (t : List ℕ)
    → is_emulation x y z ≡ false
    → clean (x ∷ y ∷ z ∷ t) ≡ x ∷ clean (y ∷ z ∷ t)
unfolding removed
clean-keep x y z t kept = rw kept refl

clean_first : (x : ℕ) (t : List ℕ) → clean (suc x ∷ t) ≡ suc x ∷ clean t
unfolding removed is_emulation
clean_first x [] = refl
clean_first x (y ∷ []) = refl
clean_first x (y ∷ z ∷ t) = clean-keep (suc x) y z t (ground arith)

clean_second : (x y : ℕ) (t : List ℕ) → clean (x ∷ suc y ∷ t) ≡ x ∷ suc y ∷ clean t
unfolding removed is_emulation
clean_second x y [] = refl
clean_second x y (z ∷ t) =
    clean-keep x (suc y) z t (ground arith) ∙ ap (λ u. x ∷ u) (clean_first y (z ∷ t))

clean_third :
    (x y z : ℕ) (t : List ℕ) → suc z ≢ 3 → clean (x ∷ y ∷ suc z ∷ t) ≡ x ∷ y ∷ suc z ∷ clean t
unfolding is_emulation
clean_third x y z t not_3 =
    clean-keep x y (suc z) t (ground arith) ∙ ap (λ u. x ∷ u) (clean_second y z t)

-- What follows no zero, one, two, and two of which the first was guarded.
abbrev Cleaned : List ℕ → Type 0
Cleaned p =
    (Free p → clean (escape 0 p) ≡ p)
    × (Free (0 ∷ p) → clean (0 ∷ escape 1 p) ≡ 0 ∷ p)
    × (Free (0 ∷ 0 ∷ p) → clean (0 ∷ 0 ∷ escape 2 p) ≡ 0 ∷ 0 ∷ p)
    × (Free (0 ∷ 0 ∷ 0 ∷ p) → clean (0 ∷ 0 ∷ escape 1 p) ≡ 0 ∷ 0 ∷ p)

escape_first : (b : ℕ) (p : List ℕ) → escape 0 (suc b ∷ p) ≡ suc b ∷ escape 0 p
unfolding escape
escape_first b p = ground arith

escape_second : (b : ℕ) (p : List ℕ) → escape 1 (suc b ∷ p) ≡ suc b ∷ escape 0 p
unfolding escape
escape_second b p = ground arith

escape_small : (b : ℕ) (p : List ℕ) → suc b ≤ 3 → escape 2 (suc b ∷ p) ≡ 3 ∷ suc b ∷ escape 0 p
unfolding escape
escape_small b p h = ground arith

escape_large : (b : ℕ) (p : List ℕ) → 3 < suc b → escape 2 (suc b ∷ p) ≡ suc b ∷ escape 0 p
unfolding escape
escape_large b p h = ground arith

two_before_first :
    (b : ℕ) (p : List ℕ)
    → clean (escape 0 p) ≡ p
    → clean (0 ∷ 0 ∷ escape 2 (suc b ∷ p)) ≡ 0 ∷ 0 ∷ suc b ∷ p
two_before_first b p cleaned = elim (Bool-cases (leb (suc b) 3)) [
  | inl small ↦
      ap (λ u. clean (0 ∷ 0 ∷ u)) (escape_small b p (leb→le (suc b) 3 small))
      ∙ clean-drop (suc b ∷ escape 0 p)
      ∙ ap (λ u. 0 ∷ u) (clean_second 0 b (escape 0 p) ∙ ap (λ u. 0 ∷ suc b ∷ u) cleaned)
  | inr large ↦
      ap (λ u. clean (0 ∷ 0 ∷ u)) (escape_large b p (ground arith))
      ∙ clean_third 0 0 b (escape 0 p) (λ e. ground arith)
      ∙ ap (λ u. 0 ∷ 0 ∷ suc b ∷ u) cleaned
]

guarded_first :
    (b : ℕ) (p : List ℕ)
    → is_lost (0 ∷ 0 ∷ 0 ∷ suc b ∷ p) ≡ false
    → clean (escape 0 p) ≡ p
    → clean (0 ∷ 0 ∷ escape 1 (suc b ∷ p)) ≡ 0 ∷ 0 ∷ suc b ∷ p
guarded_first b p free cleaned =
    ap (λ u. clean (0 ∷ 0 ∷ u)) (escape_second b p)
    ∙ clean_third 0 0 b (escape 0 p) (λ e. ground arith)
    ∙ ap (λ u. 0 ∷ 0 ∷ suc b ∷ u) cleaned

escape-Cleaned : (p : List ℕ) → Cleaned p
unfolding escape removed is_emulation
escape-Cleaned [] = (λ f. refl, λ f. refl, λ f. refl, λ f. refl)
escape-Cleaned (zero ∷ p) =
    let (none_before, one_before, two_before, guarded) = escape-Cleaned p in
    (
      one_before,
      two_before,
      λ f. clean-drop (0 ∷ escape 1 p) ∙ ap (λ u. 0 ∷ u) (guarded f),
      λ (l, (m, f)). ap (λ u. 0 ∷ u) (two_before f),
    )
escape-Cleaned (suc b ∷ p) =
    let (none_before, one_before, two_before, guarded) = escape-Cleaned p in
    (
      λ (l, f).
          ap clean (escape_first b p)
          ∙ clean_first b (escape 0 p)
          ∙ ap (λ u. suc b ∷ u) (none_before f),
      λ (l, (m, f)).
          ap (λ u. clean (0 ∷ u)) (escape_second b p)
          ∙ clean_second 0 b (escape 0 p)
          ∙ ap (λ u. 0 ∷ suc b ∷ u) (none_before f),
      λ (l, (m, (n, f))). two_before_first b p (none_before f),
      λ (k, (l, (m, (n, f)))). guarded_first b p k (none_before f),
    )

-- For any first byte and any bytes after it in which nowhere three zeroes are followed by a 3: what the
-- standard's emulation prevention makes of them is turned back into them by the code, in place.
pub strip-escape :
    (b : ℕ) (p : List ℕ) → Free p → bytes_of (strip_emulation_prevention (b ∷ escape 0 p)) ≡ b ∷ p
strip-escape b p free =
    (strip-removed b (escape 0 p)).0 ∙ ap (λ u. b ∷ u) ((escape-Cleaned p).0 free)
