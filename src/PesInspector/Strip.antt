-- ===== src/PesInspector/Strip.antt =====
-- The bytes that are moved in place are those of a list from which the dropped ones are taken out.
use ltntstools.Base.{
  ◌≡◌, refl, sym, ap, subst, inl, inr, ℕ, zero, suc, ◌+◌, ◌-◌, List, [], ◌∷◌, ◌++◌, if◌then◌else◌,
  length, take, arith, Bool-cases,
}
use mathlib.Core.List.{append-nil}
use ltntstools.PesInspector.{
  Nal, is_emulation, shift, strip_after, scan, strip_emulation_prevention,
}

-- The rounds on a list that gets shorter.
unfoldable pub removed : ℕ → List ℕ → List ℕ
removed zero bytes = bytes
removed (suc n) (x ∷ y ∷ z ∷ t) = x ∷ removed n (if is_emulation x y z then y ∷ t else y ∷ z ∷ t)
removed (suc n) bytes = bytes

-- The bytes of a unit that count.
abbrev pub bytes_of : Nal → List ℕ
bytes_of h = take h.length_bytes h.ptr

abbrev copies : ℕ → ℕ → List ℕ
copies x zero = []
copies x (suc k) = x ∷ copies x k

strip_after-copies : (y x k : ℕ) → strip_after y (copies x k) ≡ (copies x k, 0)
unfolding strip_after is_emulation
strip_after-copies y x zero = refl
strip_after-copies y x (suc zero) = refl
strip_after-copies y x (suc (suc k)) = ground arith

scan-copies : (n y x k : ℕ) → scan n (y ∷ copies x k) ≡ (y ∷ copies x k, 0)
unfolding scan
scan-copies zero y x k = refl
scan-copies (suc zero) y x zero = refl
scan-copies (suc (suc n)) y x zero = refl
scan-copies (suc n) y x (suc k) = rw (strip_after-copies y x (suc k), scan-copies n x x k) refl

-- The last byte is `x`.
abbrev LastIs : ℕ → ℕ → List ℕ → Type 0
LastIs x y [] = y ≡ x
LastIs x y (z ∷ t) = LastIs x z t

abbrev Ends : ℕ → List ℕ → Type 0
Ends x [] = Unit
Ends x (y ∷ []) = Unit
Ends x (y ∷ z ∷ t) = LastIs x z t

shift-copies :
    (x w k : ℕ) (t : List ℕ) → LastIs x w t → shift w (t ++ copies x k) ≡ t ++ copies x (suc k)
unfolding shift
shift-copies x w zero [] last = ap (λ v. v ∷ []) last
shift-copies x w (suc k) [] last = ap (λ v. x ∷ v) (shift-copies x x k [] refl)
shift-copies x w k (v ∷ t) last = ap (λ u. v ∷ u) (shift-copies x v k t last)

Ends-drop : (x z w : ℕ) (t : List ℕ) → LastIs x w t → Ends x (z ∷ t)
Ends-drop x z w [] last = tt
Ends-drop x z w (v ∷ t) last = last

-- What a scan leaves in front, and how much it drops.
abbrev Leaves : ℕ → List ℕ × ℕ → List ℕ → Type 0
Leaves n (bytes, dropped) target =
    (take (length target) bytes ≡ target) × (dropped + length target ≡ n)

Leaves-next :
    (n m y d : ℕ) (bytes target : List ℕ) (dropped : ℕ)
    → d + suc n ≡ m
    → Leaves n (bytes, dropped) target
    → Leaves m (y ∷ bytes, d + dropped) (y ∷ target)
Leaves-next n m y d bytes target dropped size (same, count) =
    (ap (λ u. y ∷ u) same, omega (arith, size, count))

-- The scan of a rest that is followed by copies of its last byte, as many as have been dropped.
scan-Leaves :
    (n x k : ℕ) (r : List ℕ)
    → length r + k ≡ n
    → Ends x r
    → Leaves (length r) (scan n (r ++ copies x k)) (removed n r)
unfolding scan strip_after removed
scan-Leaves zero x zero [] size ends = (refl, refl)
scan-Leaves zero x (suc k) [] size ends = absurd (omega (arith, size))
scan-Leaves (suc n) x zero [] size ends = (refl, refl)
scan-Leaves (suc n) x (suc k) [] size ends =
    subst (λ u. Leaves 0 u []) (sym (scan-copies (suc n) x x k)) (refl, refl)
scan-Leaves zero x k (y ∷ r) size ends = absurd (omega (arith, size))
scan-Leaves (suc n) x k (y ∷ []) size ends =
    subst (λ u. Leaves 1 u (y ∷ [])) (sym (scan-copies (suc n) y x k)) (refl, refl)
scan-Leaves (suc n) x k (y ∷ z ∷ []) size ends =
    subst (λ v. Leaves 2 (scan (suc n) (y ∷ v ∷ copies x k)) (y ∷ v ∷ [])) (sym ends)
      (subst (λ u. Leaves 2 u (y ∷ x ∷ [])) (sym (scan-copies (suc n) y x (suc k))) (refl, refl))
scan-Leaves (suc n) x k (y ∷ z ∷ w ∷ t) size ends = elim (Bool-cases (is_emulation y z w)) [
  | inl dropped ↦
      let rest = scan-Leaves n x (suc k) (z ∷ t) (omega (arith, size)) (Ends-drop x z w t ends) in
      rw (dropped, shift-copies x w k t ends)
        (Leaves-next (suc (length t)) (suc (suc (suc (length t)))) y 1
          (scan n (z ∷ (t ++ copies x (suc k)))).0 (removed n (z ∷ t))
          (scan n (z ∷ (t ++ copies x (suc k)))).1 (omega arith) rest)
  | inr kept ↦
      let rest = scan-Leaves n x k (z ∷ w ∷ t) (omega (arith, size)) ends in
      rw kept (
        Leaves-next (suc (suc (length t))) (suc (suc (suc (length t)))) y 0
          (scan n (z ∷ w ∷ (t ++ copies x k))).0 (removed n (z ∷ w ∷ t))
          (scan n (z ∷ w ∷ (t ++ copies x k))).1 (omega arith) rest)
]

some-LastIs : (y : ℕ) (t : List ℕ) → (x : ℕ) × LastIs x y t
some-LastIs y [] = (y, refl)
some-LastIs y (z ∷ t) = some-LastIs z t

some-Ends : (r : List ℕ) → (x : ℕ) × Ends x r
some-Ends [] = (0, tt)
some-Ends (y ∷ []) = (0, tt)
some-Ends (y ∷ z ∷ t) = some-LastIs z t

-- For every unit: the bytes that count after the code, which moves the rest of the buffer over each
-- dropped byte and goes on to the old end, are those of a list from which each is taken out; and
-- the length is theirs.
pub strip-removed :
    (b : ℕ) (rest : List ℕ)
    → (bytes_of (strip_emulation_prevention (b ∷ rest)) ≡ b ∷ removed (length rest) rest)
      × ((strip_emulation_prevention (b ∷ rest)).length_bytes
          ≡ suc (length (removed (length rest) rest)))
unfolding strip_emulation_prevention
strip-removed b rest =
    let (x, ends) = some-Ends rest in
    let target = removed (length rest) rest in
    let left : Leaves (length rest) (scan (length rest) rest) target =
      subst (λ u. Leaves (length rest) (scan (length rest) u) target) (append-nil rest)
        (scan-Leaves (length rest) x 0 rest (omega arith) ends) in
    let counted : suc (length rest) - (scan (length rest) rest).1 ≡ suc (length target) =
      omega (arith, left.1) in
    (
      subst (λ n. take n (b ∷ (scan (length rest) rest).0) ≡ b ∷ target) (sym counted)
          (ap (λ u. b ∷ u) left.0),
      counted,
    )
