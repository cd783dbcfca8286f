-- ===== src/Trend/Tests.antt =====
-- The trend of three places after five samples, with whole numbers for the floating-point ones.
use ltntstools.Base.{ℕ, ◌+◌, ◌-◌, ◌*◌, ◌/◌, ◌^◌, ◌≡◌, refl, some, List, [], ◌∷◌}
use ltntstools.Trend.{Double, Sample, alloc, adds, visit}

abbrev whole : Double
whole = record {
  Number = ℕ;
  of_ℕ = λ n. n;
  add = λ a b. a + b;
  sub = λ a b. a - b;
  mul = λ a b. a * b;
  div = λ a b. a / b;
  pow = λ a b. a ^ b;
}

abbrev sample : ℕ → Sample whole
sample n = record { x = n; y = n * 3 }

abbrev samples : List (Sample whole)
samples = sample 1 ∷ sample 2 ∷ sample 3 ∷ sample 4 ∷ sample 5 ∷ []

-- The last three samples, from an array in which the newest overwrote the oldest.
last_three :
    visit whole (adds whole (alloc whole 3) samples) ≡ some (sample 3 ∷ sample 4 ∷ sample 5 ∷ [])
unfolding visit adds alloc
last_three = refl
