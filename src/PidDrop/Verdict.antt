-- ===== src/PidDrop/Verdict.antt =====
-- Which PIDs the options leave: the last option that names a PID, or all of them, decides.
use ltntstools.Base.{
  ◌≡◌, refl, sym, ap, ◌∙◌, inl, inr, ℕ, Bool, true, false, ◌||◌, Option, none, some, List, [], ◌∷◌,
  arith, ◌==◌, if◌then◌else◌, Option-cases,
}
use ltntstools.PidDrop.{
  Host, Argument, Context, all_pids, write_filter, filter_option, option, options,
}

-- What an option says of the PID `k`, if it says anything: whether it passes.
unfoldable pub says : Bool → Option ℕ → ℕ → Option Bool
says v none k = none
says v (some n) k = if n == all_pids || n == k then some v else none

abbrev pub or_else : Option Bool → Bool → Bool
or_else none b = b
or_else (some v) b = v

or_else_twice :
    (o o' : Option Bool) (b : Bool)
    → or_else (elim o [ none ↦ o' | some v ↦ some v ]) b ≡ or_else o (or_else o' b)
or_else_twice none o' b = refl
or_else_twice (some v) o' b = refl

module _ (host : Host) where
  unfoldable pub word : Argument → ℕ → Option Bool
  unfolding says
  word a k =
      if a.ch == b'R'
      then says false (host.scan_hex a.optarg) k
      else if a.ch == b'A'
      then says true (host.scan_hex a.optarg) k
      else none

  -- The last word on a PID.
  unfoldable pub verdict : List Argument → ℕ → Option Bool
  unfolding word
  verdict [] k = none
  verdict (a ∷ rest) k = elim (verdict rest k) [ none ↦ word a k | some v ↦ some v ]

  filter_option-says :
      (c c' : Context) (v : Bool) (o : Option ℕ) (k : ℕ)
      → filter_option c v o ≡ some c'
      → c'.filter k ≡ or_else (says v o k) (c.filter k)
  unfolding filter_option says write_filter
  filter_option-says c c' v none k h = cc
  filter_option-says c c' v (some n) k h = ground arith

  option-word :
      (c c' : Context) (a : Argument) (k : ℕ)
      → option host c a ≡ some c'
      → c'.filter k ≡ or_else (word a k) (c.filter k)
  unfolding option word
  option-word c c' a k h = ground (
    arith,
    filter_option-says c c' false (host.scan_hex a.optarg) k,
    filter_option-says c c' true (host.scan_hex a.optarg) k,
  )

  pub options-verdict :
      (args : List Argument) (c c' : Context) (k : ℕ)
      → options host c args ≡ some c'
      → c'.filter k ≡ or_else (verdict args k) (c.filter k)
  unfolding options verdict
  options-verdict [] c c' k h = ground arith
  options-verdict (a ∷ rest) c c' k h = elim (Option-cases (option host c a)) [
    | inl e ↦ cc (rw (e, options) at h)
    | inr (c1, e) ↦
        let after : options host c1 rest ≡ some c' = rw (e, options) at h in
        options-verdict rest c1 c' k after
        ∙ ap (or_else (verdict rest k)) (option-word c c1 a k e)
        ∙ sym (or_else_twice (verdict rest k) (word a k) (c.filter k))
  ]
