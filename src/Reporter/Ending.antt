-- ===== src/Reporter/Ending.antt =====
-- The inner loop of the reporter ends.
use ltntstools.Base.{
  ◌≡◌, refl, ap, ◌∙◌, ℕ, suc, ◌+◌, ◌*◌, ◌<◌, ◌≤◌, some, List, [], ◌∷◌, arith, leb, Bool-cases, inl,
  inr, length, length-append,
}
use ltntstools.Reporter.{Reporter, Turn, attempt, post_all, pass}
use ltntstools.Reporter.Attempt.{
  attempt_ok, attempt_fail, peek-cases, post_all_empty, post_all_round,
}
use ltntstools.Reporter.Delivery.{arrivals}

module _ {A : Type 0} where
  -- The items that wait or arrive take eight turns each, less the failures in a row until now.
  post_all_ends :
      (now k : ℕ) (turns : List (Turn A)) (s : Reporter A)
      → s.failed ≡ 250 * k
      → k < 8
      → 8 * (length s.queue + length (arrivals turns)) ≤ length turns + k
      → (s' : Reporter A) × (post_all now turns s ≡ some s')
  unfolding arrivals
  post_all_ends now k [] s failed few enough = elim (peek-cases s.queue) [
    | inl e ↦ (s, post_all_empty now [] s e)
    | inr (item, rest, front, e) ↦ absurd (omega (arith, ap length front))
  ]
  post_all_ends now k (t ∷ turns) s failed few enough = elim (peek-cases s.queue) [
    | inl e ↦ (s, post_all_empty now (t ∷ turns) s e)
    | inr (item, rest, front, e) ↦
        let next : Reporter A = attempt t item s in
        let round = post_all_round now t turns s item e in
        let all = length-append t.arrived (arrivals turns) in
        elim (Bool-cases t.terminate) [
          | inl stop ↦ (s, round ∙ ground (arith, stop))
          | inr on ↦ elim (Bool-cases (leb 2000 next.failed)) [
            | inl tired ↦
                (record next { next_post_time = now + 1 }, round ∙ ground (arith, on, tired))
            | inr fresh ↦
                let (s', ends) =
                  elim (Bool-cases t.ok)
                    as (λ _. (s' : Reporter A) × (post_all now turns next ≡ some s')) [
                      | inl ok ↦
                          let eq = attempt_ok t item rest s front ok in
                          post_all_ends now 0 turns next (ap (λ (r : Reporter A). r.failed) eq)
                            (omega arith)
                            (omega (
                              arith,
                              ap (λ (r : Reporter A). length r.queue) eq,
                              length-append rest t.arrived,
                              ap length front,
                              all,
                            ))
                      | inr fails ↦
                          let eq = attempt_fail t item s fails in
                          let more = ap (λ (r : Reporter A). r.failed) eq in
                          post_all_ends now (suc k) turns next (omega (arith, more, failed))
                            (ground (arith, more, failed, fresh))
                            (omega (
                              arith,
                              ap (λ (r : Reporter A). length r.queue) eq,
                              length-append s.queue t.arrived,
                              all,
                            ))
                    ] in
                (s', round ∙ (ground (arith, on, fresh, ends)))
          ]
        ]
  ]

  -- A pass ends: eight turns for each item that waits or is pushed meanwhile are
  -- enough, whatever the posts answer.
  pub pass_ends :
      (now : ℕ) (turns : List (Turn A)) (s : Reporter A)
      → 8 * (length s.queue + length (arrivals turns)) ≤ length turns
      → (s' : Reporter A) × (pass now turns s ≡ some s')
  unfolding pass
  pass_ends now turns s enough = elim (Bool-cases (leb s.next_post_time now)) [
    | inl due ↦
        let fresh : Reporter A = record s { next_post_time = now + 1; failed = 0 } in
        let (s', ends) =
          post_all_ends now 0 turns fresh refl (omega arith) (omega (arith, enough)) in
        (s', rw due ends)
    | inr early ↦ (s, rw early refl)
  ]
