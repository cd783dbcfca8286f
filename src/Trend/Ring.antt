-- ===== src/Trend/Ring.antt =====
-- The ring holds the last samples, each at its index by the size of the ring.
use native.Mathlib.Nat.{mod-lt, mod-mod, mod-add-mod, mod-eq_of_lt}
use mathlib.Core.List.{append-nil, append_assoc}
use ltntstools.Base.{
  ◌≡◌, ◌≢◌, refl, subst, ap, ◌∙◌, sym, ℕ, zero, suc, ◌+◌, ◌-◌, ◌%◌, ◌<◌, ◌≤◌, some, List, [], ◌∷◌,
  ◌++◌, arith, length, get_elem?, set, min, ltb, length-append, length-set, Bool-cases, inl, inr,
}
use ltntstools.Trend.{Double, Sample, Trend, blanks, alloc, add, adds}

-- Two numbers less than `m` apart have different remainders by `m`.
mod-ne : (m k e : ℕ) → 0 < e → e < m → (k + e) % m ≢ k % m
mod-ne m k e p q same = grind arith

module _ {ℓ} {A : Type ℓ} where
  get_elem?-set_self :
      (xs : List A) (i : ℕ) (v : A) → i < length xs → get_elem? (set xs i v) i ≡ some v
  get_elem?-set_self [] i v h = absurd (omega arith)
  get_elem?-set_self (x ∷ xs) zero v h = refl
  get_elem?-set_self (x ∷ xs) (suc i) v h = get_elem?-set_self xs i v (omega arith)

  get_elem?-set_ne :
      (xs : List A) (i j : ℕ) (v : A) → i ≢ j → get_elem? (set xs i v) j ≡ get_elem? xs j
  get_elem?-set_ne [] i j v h = refl
  get_elem?-set_ne (x ∷ xs) zero zero v h = absurd (h refl)
  get_elem?-set_ne (x ∷ xs) zero (suc j) v h = refl
  get_elem?-set_ne (x ∷ xs) (suc i) zero v h = refl
  get_elem?-set_ne (x ∷ xs) (suc i) (suc j) v h = get_elem?-set_ne xs i j v (λ e. h (ap suc e))

  get_elem?-append_left :
      (xs ys : List A) (i : ℕ) → i < length xs → get_elem? (xs ++ ys) i ≡ get_elem? xs i
  get_elem?-append_left [] ys i h = absurd (omega arith)
  get_elem?-append_left (x ∷ xs) ys zero h = refl
  get_elem?-append_left (x ∷ xs) ys (suc i) h = get_elem?-append_left xs ys i (omega arith)

  get_elem?-append_last : (xs : List A) (y : A) → get_elem? (xs ++ y ∷ []) (length xs) ≡ some y
  get_elem?-append_last [] y = refl
  get_elem?-append_last (x ∷ xs) y = get_elem?-append_last xs y

  length-blanks : (z : A) (n : ℕ) → length (blanks z n) ≡ n
  unfolding blanks
  length-blanks z zero = refl
  length-blanks z (suc n) = ap suc (length-blanks z n)

-- After the samples `hs`, the oldest first: each of the last ones stands at its index.
pub record IsRing {d : Double} (t : Trend d) (hs : List (Sample d)) : Type 0 where
  pub room : 0 < t.max_count
  pub sized : length t.list ≡ t.max_count
  pub next : t.idx ≡ length hs % t.max_count
  pub counted : t.count ≡ min (length hs) t.max_count
  pub holds :
      (k : ℕ)
      → k < length hs
      → length hs ≤ k + t.max_count
      → get_elem? t.list (k % t.max_count) ≡ get_elem? hs k

module _ (d : Double) where
  alloc-IsRing : (n : ℕ) → 0 < n → IsRing (alloc d n) []
  unfolding alloc
  alloc-IsRing n h = record {
    room = h;
    sized = length-blanks _ n;
    next = sym (mod-eq_of_lt h);
    counted = omega arith;
    holds = λ k lt le. absurd (omega arith);
  }

  module _ (t : Trend d) (hs : List (Sample d)) (r : IsRing t hs) (s : Sample d) where
    one_more : length (hs ++ s ∷ []) ≡ length hs + 1
    one_more = length-append hs (s ∷ [])

    place : t.idx % t.max_count ≡ length hs % t.max_count
    place = ap (λ i. i % t.max_count) r.next ∙ mod-mod (length hs) t.max_count

    -- An older sample stands at another place.
    other_place :
        (k : ℕ)
        → k < length hs
        → length hs < k + t.max_count
        → t.idx % t.max_count ≢ k % t.max_count
    other_place k lt le e =
        mod-ne t.max_count k (length hs - k) (omega arith) (omega arith)
          (ap (λ n. n % t.max_count) (omega arith) ∙ sym place ∙ e)

    still_holds :
        (k : ℕ)
        → k < length hs + 1
        → length hs + 1 ≤ k + t.max_count
        → get_elem? (set t.list (t.idx % t.max_count) s) (k % t.max_count)
          ≡ get_elem? (hs ++ s ∷ []) k
    still_holds k lt le = elim (Bool-cases (ltb k (length hs))) [
      | inl old ↦
          let before : k < length hs = ground arith in
          get_elem?-set_ne t.list (t.idx % t.max_count) (k % t.max_count) s
            (other_place k before (omega arith))
          ∙ r.holds k before (omega arith)
          ∙ sym (get_elem?-append_left hs (s ∷ []) k before)
      | inr new ↦
          let last : k ≡ length hs = ground arith in
          let here : k % t.max_count ≡ t.idx % t.max_count =
            ap (λ n. n % t.max_count) last ∙ sym place in
          ap (get_elem? (set t.list (t.idx % t.max_count) s)) here
          ∙ get_elem?-set_self t.list (t.idx % t.max_count) s
              (omega (arith, mod-lt t.idx r.room, r.sized))
          ∙ sym (get_elem?-append_last hs s)
          ∙ ap (get_elem? (hs ++ s ∷ [])) (sym last)
    ]

    pub add-IsRing : IsRing (add d t s) (hs ++ s ∷ [])
    unfolding add
    add-IsRing = record {
      room = r.room;
      sized = length-set t.list (t.idx % t.max_count) s ∙ r.sized;
      next =
          ap (λ i. (i + 1) % t.max_count) r.next
          ∙ mod-add-mod (length hs) t.max_count 1
          ∙ ap (λ n. n % t.max_count) (sym one_more);
      counted = ground (arith, one_more, r.counted, r.room);
      holds = λ k lt le. still_holds k (omega (arith, one_more)) (omega (arith, one_more));
    }

  adds-IsRing :
      (ss : List (Sample d)) (t : Trend d) (hs : List (Sample d))
      → IsRing t hs
      → IsRing (adds d t ss) (hs ++ ss)
  unfolding adds
  adds-IsRing [] t hs r = subst (IsRing t) (sym (append-nil hs)) r
  adds-IsRing (s ∷ ss) t hs r =
      subst (IsRing (adds d (add d t s) ss)) (append_assoc hs (s ∷ []) ss)
        (adds-IsRing ss (add d t s) (hs ++ s ∷ []) (add-IsRing t hs r s))

  -- A ring after its allocation and the samples `ss`.
  pub adds-alloc-IsRing : (n : ℕ) (ss : List (Sample d)) → 0 < n → IsRing (adds d (alloc d n) ss) ss
  adds-alloc-IsRing n ss h = adds-IsRing ss (alloc d n) [] (alloc-IsRing n h)
