-- ===== src/Trend.antt =====
-- The linear trend of the last samples (src/kl-lineartrend.c): a ring of samples, and the sums over
-- it. The floating-point numbers are a parameter with their operations, of which no law is used.
-- The ring has at least one place: the code takes remainders by its size.
pub mod Ring
pub mod Recent
mod Tests
use ltntstools.Base.{
  ℕ, zero, suc, ◌+◌, ◌-◌, ◌%◌, Bool, Option, none, some, List, [], ◌∷◌, ltb, ◌==◌, if◌then◌else◌,
  length, get_elem?, set,
}

-- The operations of `double` that the code uses.
pub record Double : Type 1 where
  pub Number : Type 0
  pub of_ℕ : ℕ → Number
  pub add : Number → Number → Number
  pub sub : Number → Number → Number
  pub mul : Number → Number → Number
  pub div : Number → Number → Number
  pub pow : Number → Number → Number

-- struct kllineartrend_item_s and struct kllineartrend_context_s
pub record Sample (d : Double) : Type 0 where
  pub x : d.Number
  pub y : d.Number

pub record Trend (d : Double) : Type 0 where
  pub list : List (Sample d)
  pub idx : ℕ
  pub count : ℕ
  pub max_count : ℕ

-- The array of `calloc`.
unfoldable pub blanks {ℓ} : {A : Type ℓ} → A → ℕ → List A
blanks z zero = []
blanks z (suc n) = z ∷ blanks z n

module _ (d : Double) where
  -- kllineartrend_alloc
  unfoldable pub alloc : ℕ → Trend d
  unfolding blanks
  alloc max_items = record {
    list = blanks (record { x = d.of_ℕ 0; y = d.of_ℕ 0 }) max_items;
    idx = 0;
    count = 0;
    max_count = max_items;
  }

  -- kllineartrend_add
  unfoldable pub add : Trend d → Sample d → Trend d
  add t s = record t {
    list = set t.list (t.idx % t.max_count) s;
    count = if ltb t.count t.max_count then t.count + 1 else t.count;
    idx = (t.idx + 1) % t.max_count;
  }

  unfoldable pub adds : Trend d → List (Sample d) → Trend d
  unfolding add
  adds t [] = t
  adds t (s ∷ rest) = adds (add t s) rest

  -- The bounds `a` and `b` of the loops.
  unfoldable pub first_index : Trend d → ℕ
  first_index t = if ltb t.count t.max_count then 0 else t.idx

  unfoldable pub end_index : Trend d → ℕ
  unfolding first_index
  end_index t =
      if ltb t.count t.max_count
      then t.count
      else if t.count == t.max_count
      then t.idx + t.max_count
      else 0

  -- `for (int i = a; i < b; i++)` over the entries at `i % maxCount`, for `n` rounds.
  unfoldable pub visit_from : List (Sample d) → ℕ → ℕ → ℕ → Option (List (Sample d))
  visit_from list m i zero = some []
  visit_from list m i (suc n) = elim (get_elem? list (i % m)) [
    | none ↦ none
    | some s ↦ elim (visit_from list m (i + 1) n) [ none ↦ none | some rest ↦ some (s ∷ rest) ]
  ]

  unfoldable pub visit : Trend d → Option (List (Sample d))
  unfolding first_index end_index visit_from
  visit t = visit_from t.list t.max_count (first_index t) (end_index t - first_index t)

  -- The sums of kllineartrend_calculate.
  pub record Sums : Type 0 where
    pub count : d.Number
    pub sum_x : d.Number
    pub sum_x2 : d.Number
    pub sum_y : d.Number
    pub sum_xy : d.Number

  unfoldable pub sum_up : Sums → List (Sample d) → Sums
  sum_up s [] = s
  sum_up s (e ∷ rest) =
      sum_up
        (record {
          count = d.add s.count (d.of_ℕ 1);
          sum_x = d.add s.sum_x e.x;
          sum_x2 = d.add s.sum_x2 (d.mul e.x e.x);
          sum_y = d.add s.sum_y e.y;
          sum_xy = d.add s.sum_xy (d.mul e.x e.y);
        })
        rest

  pub record Line : Type 0 where
    pub slope : d.Number
    pub intercept : d.Number
    pub deviation : d.Number

  -- The line of samples: the deviation is the slope times `b`, the end of the loop.
  unfoldable pub line_of : ℕ → List (Sample d) → Line
  unfolding sum_up
  line_of b samples =
      let zeros : Sums = record {
        count = d.of_ℕ 0;
        sum_x = d.of_ℕ 0;
        sum_x2 = d.of_ℕ 0;
        sum_y = d.of_ℕ 0;
        sum_xy = d.of_ℕ 0;
      } in
      let s : Sums = sum_up zeros samples in
      let slope =
        d.div (d.sub s.sum_xy (d.div (d.mul s.sum_x s.sum_y) s.count))
          (d.sub s.sum_x2 (d.div (d.mul s.sum_x s.sum_x) s.count)) in
      record {
        slope = slope;
        intercept = d.sub (d.div s.sum_y s.count) (d.mul slope (d.div s.sum_x s.count));
        deviation = d.mul slope (d.of_ℕ b);
      }

  -- kllineartrend_calculate
  unfoldable pub calculate : Trend d → Option Line
  unfolding visit line_of
  calculate t = elim (visit t) [ none ↦ none | some samples ↦ some (line_of (end_index t) samples) ]

  -- The loops of kllineartrend_calculate_r_squared: the "mean of y" sums the x of the samples.
  unfoldable pub sum_mean : d.Number → List (Sample d) → d.Number
  sum_mean m [] = m
  sum_mean m (e ∷ rest) = sum_mean (d.add m e.x) rest

  unfoldable pub sum_squares :
      d.Number → d.Number → d.Number → d.Number × d.Number → List (Sample d) → d.Number × d.Number
  sum_squares slope intercept mean (total, residual) [] = (total, residual)
  sum_squares slope intercept mean (total, residual) (e ∷ rest) =
      let y_pred = d.add (d.mul slope e.x) intercept in
      sum_squares slope intercept mean
        (
          d.add total (d.pow (d.sub e.y mean) (d.of_ℕ 2)),
          d.add residual (d.pow (d.sub e.y y_pred) (d.of_ℕ 2)),
        )
        rest

  -- What the source calls R2: its mean of y sums the x.
  unfoldable pub r_squared_of : ℕ → d.Number → d.Number → List (Sample d) → d.Number
  unfolding sum_mean sum_squares
  r_squared_of count slope intercept samples =
      let mean = d.div (sum_mean (d.of_ℕ 0) samples) (d.of_ℕ count) in
      let (total, residual) = sum_squares slope intercept mean (d.of_ℕ 0, d.of_ℕ 0) samples in
      d.sub (d.of_ℕ 1) (d.div residual total)

  -- kllineartrend_calculate_r_squared
  unfoldable pub calculate_r_squared : Trend d → d.Number → d.Number → Option d.Number
  unfolding visit r_squared_of
  calculate_r_squared t slope intercept = elim (visit t) [
    | none ↦ none
    | some samples ↦ some (r_squared_of t.count slope intercept samples)
  ]
