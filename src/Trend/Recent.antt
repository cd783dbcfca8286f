-- ===== src/Trend/Recent.antt =====
-- The loops over the ring visit the last samples, the oldest first; so the line is theirs.
use ltntstools.Base.{
  ◌≡◌, refl, ap, ◌∙◌, ℕ, ◌+◌, ◌-◌, ◌%◌, ◌<◌, ◌≤◌, List, [], ◌∷◌, arith, length, drop,
}
use ltntstools.Trend.{Double, Sample, Trend, alloc, add, adds, end_index}
use ltntstools.Trend.Ring.{IsRing, adds-alloc-IsRing}

-- The last `n` of a list.
abbrev pub recent {ℓ} : {A : Type ℓ} → ℕ → List A → List A
recent n xs = drop (length xs - n) xs

module _ (d : Double) where
  adds-max_count : (ss : List (Sample d)) (t : Trend d) → (adds d t ss).max_count ≡ t.max_count
  unfolding adds
  adds-max_count [] t = refl
  adds-max_count (s ∷ ss) t = adds-max_count ss (add d t s) ∙ unfold add in refl

  -- The end of the loop is the number of samples until the array is full, but then it is the size
  -- and the position of the next sample: it goes up and down, with the deviation.
  pub end_index_full :
      (n : ℕ) (ss : List (Sample d))
      → 0 < n
      → n ≤ length ss
      → end_index d (adds d (alloc d n) ss) ≡ length ss % n + n
  unfolding end_index
  end_index_full n ss h full =
      let t : Trend d = adds d (alloc d n) ss in
      let size : t.max_count ≡ n = adds-max_count ss (alloc d n) ∙ unfold alloc in refl in
      let r : IsRing t ss = adds-alloc-IsRing d n ss h in
      let at : t.idx ≡ length ss % n = r.next ∙ ap (λ m. length ss % m) size in
      ground (arith, r.counted, size, at)
