-- ===== src/Reporter/Delivery.antt =====
-- What has been posted, what has been freed and what is in the queue make up what was pushed.
use mathlib.Core.List.{append-nil, append_assoc}
use ltntstools.Base.{
  ◌≡◌, refl, sym, ap, subst, ◌∙◌, ℕ, suc, ◌+◌, some, List, [], ◌∷◌, ◌++◌, arith, leb, Bool-cases,
  inl, inr, All, take, length, length-append, max, ◌≤◌,
}
use ltntstools.Reporter.{Reporter, Turn, attempt, post_all, pass, json_item_post_http}
use ltntstools.Reporter.Attempt.{
  attempt_ok, attempt_fail, attempt-next_post_time, peek-cases, post_all_empty, post_all_round,
}

module _ {A : Type 0} where
  -- The items of the reporter: posted, then waiting.
  abbrev pub stream : Reporter A → List A
  stream s = s.posted ++ s.queue

  -- The items that arrive in some turns.
  unfoldable pub arrivals : List (Turn A) → List A
  arrivals [] = []
  arrivals (t ∷ turns) = t.arrived ++ arrivals turns

  -- Nothing is lost, doubled or reordered, and what is freed is what has been posted.
  abbrev pub Delivers : Reporter A → Reporter A → List A → Type 0
  Delivers s s' items = (stream s' ≡ stream s ++ items) × (s'.freed ≡ s'.posted)

  attempt-Delivers :
      (t : Turn A) (item : A) (queue : List A) (s : Reporter A)
      → s.freed ≡ s.posted
      → s.queue ≡ item ∷ queue
      → Delivers s (attempt t item s) t.arrived
  attempt-Delivers t item queue s sane front = elim (Bool-cases t.ok) [
    | inl ok ↦
        rw (attempt_ok t item queue s front ok)
          (rw front (simp append_assoc), ap (λ l. l ++ item ∷ []) sane)
    | inr fails ↦ rw (attempt_fail t item s fails) (rw front (simp append_assoc), sane)
  ]

  Delivers-trans :
      (s u v : Reporter A) (xs ys : List A)
      → Delivers s u xs
      → Delivers u v ys
      → Delivers s v (xs ++ ys)
  Delivers-trans s u v xs ys p q =
      (q.0 ∙ ap (λ l. l ++ ys) p.0 ∙ append_assoc (stream s) xs ys, q.1)

  Delivers-same : (s s' : Reporter A) → s ≡ s' → s.freed ≡ s.posted → Delivers s s' []
  Delivers-same s s' e sane = subst (λ x. Delivers s x []) e (sym (append-nil (stream s)), sane)

  post_all-Delivers :
      (now : ℕ) (turns : List (Turn A)) (s s' : Reporter A)
      → s.freed ≡ s.posted
      → post_all now turns s ≡ some s'
      → (n : ℕ) × Delivers s s' (arrivals (take n turns))
  unfolding arrivals
  post_all-Delivers now [] s s' sane done = elim (peek-cases s.queue) [
    | inl e ↦ (0, Delivers-same s s' (ground (arith, done, post_all_empty now [] s e)) sane)
    | inr (item, rest, front, e) ↦ absurd (unfold post_all in ground (arith, done, e))
  ]
  post_all-Delivers now (t ∷ turns) s s' sane done = elim (peek-cases s.queue) [
    | inl e ↦
        (0, Delivers-same s s' (ground (arith, done, post_all_empty now (t ∷ turns) s e)) sane)
    | inr (item, rest, front, e) ↦
        let next : Reporter A = attempt t item s in
        let first : Delivers s next t.arrived = attempt-Delivers t item rest s sane front in
        let round = sym (post_all_round now t turns s item e) ∙ done in
        elim (Bool-cases t.terminate) [
          | inl stop ↦ (0, Delivers-same s s' (ground (arith, round, stop)) sane)
          | inr on ↦ elim (Bool-cases (leb 2000 next.failed)) [
            | inl tired ↦ (
              1,
              subst (λ x. Delivers s x (t.arrived ++ []))
                  (let e' : record next { next_post_time = now + 1 } ≡ s' =
                      ground (arith, round, on, tired) in
                    e')
                  (first.0 ∙ ap (λ l. stream s ++ l) (sym (append-nil t.arrived)), first.1),
            )
            | inr fresh ↦
                let (n, rest_delivers) =
                  post_all-Delivers now turns next s' first.1 (ground (arith, round, on, fresh)) in
                (
                  suc n,
                  Delivers-trans s next s' t.arrived (arrivals (take n turns)) first rest_delivers,
                )
          ]
        ]
  ]

  post_all-next_post_time :
      (now : ℕ) (turns : List (Turn A)) (s s' : Reporter A)
      → s.next_post_time ≡ now + 1
      → post_all now turns s ≡ some s'
      → s'.next_post_time ≡ now + 1
  post_all-next_post_time now [] s s' at done = elim (peek-cases s.queue) [
    | inl e ↦ ground (arith, done, post_all_empty now [] s e)
    | inr (item, rest, front, e) ↦ absurd (unfold post_all in ground (arith, done, e))
  ]
  post_all-next_post_time now (t ∷ turns) s s' at done = elim (peek-cases s.queue) [
    | inl e ↦ ground (arith, done, post_all_empty now (t ∷ turns) s e)
    | inr (item, rest, front, e) ↦ ground (
      arith,
      done,
      post_all_round now t turns s item e,
      post_all-next_post_time now turns (attempt t item s) s',
      attempt-next_post_time t item rest s front,
    )
  ]

  never_posts :
      (now : ℕ) (turns : List (Turn A)) (s s' : Reporter A)
      → All (λ t. (item : A) → t.ok ≡ json_item_post_http item) turns
      → post_all now turns s ≡ some s'
      → (s'.posted ≡ s.posted) × (s'.freed ≡ s.freed) × (length s.queue ≤ length s'.queue)
  unfolding json_item_post_http
  never_posts now [] s s' http done = elim (peek-cases s.queue) [
    | inl e ↦ ground (arith, done, post_all_empty now [] s e)
    | inr (item, rest, front, e) ↦ absurd (unfold post_all in ground (arith, done, e))
  ]
  never_posts now (t ∷ turns) s s' http done = elim (peek-cases s.queue) [
    | inl e ↦ ground (arith, done, post_all_empty now (t ∷ turns) s e)
    | inr (item, rest, front, e) ↦
        let failed = attempt_fail t item s (http.0 item) in
        ground (
          arith,
          done,
          post_all_round now t turns s item e,
          failed,
          length-append s.queue t.arrived,
          never_posts now turns (attempt t item s) s' http.1,
        )
  ]

  -- A pass that ends, with what other threads push meanwhile and with any answers of the post, which
  -- are arguments: json_item_post_http, which the `#if` of the source selects, always answers -1, so
  -- that in this build no item is posted; json_item_post_socket is the other choice. The items that have been posted and
  -- those that wait are, in order, those of before and the ones that were pushed in its first turns;
  -- exactly the posted ones have been freed; and the next pass is at most a second later, however
  -- many posts failed, where the comment in the source speaks of 30 seconds.
  pub pass-Delivers :
      (now : ℕ) (turns : List (Turn A)) (s s' : Reporter A)
      → s.freed ≡ s.posted
      → pass now turns s ≡ some s'
      → (n : ℕ) × Delivers s s' (arrivals (take n turns))
        × (s'.next_post_time ≤ max s.next_post_time (now + 1))
  unfolding pass arrivals
  pass-Delivers now turns s s' sane done =
      let due : Reporter A = record s { next_post_time = now + 1; failed = 0 } in
      elim (Bool-cases (leb s.next_post_time now)) [
        | inl late ↦
            let ran : post_all now turns due ≡ some s' = ground (arith, done, late) in
            let (n, delivers) = post_all-Delivers now turns due s' sane ran in
            (n, delivers, omega (arith, post_all-next_post_time now turns due s' refl ran))
        | inr early ↦
            let same : s ≡ s' = ground (arith, done, early) in
            (
              0,
              Delivers-same s s' same sane,
              omega (arith, ap (λ (r : Reporter A). r.next_post_time) same),
            )
      ]

  -- With json_item_post_http as it is, no pass posts or frees an item: the queue only grows.
  pub http_never_posts :
      (now : ℕ) (turns : List (Turn A)) (s s' : Reporter A)
      → All (λ t. (item : A) → t.ok ≡ json_item_post_http item) turns
      → pass now turns s ≡ some s'
      → (s'.posted ≡ s.posted) × (s'.freed ≡ s.freed) × (length s.queue ≤ length s'.queue)
  unfolding pass
  http_never_posts now turns s s' http done =
      let due : Reporter A = record s { next_post_time = now + 1; failed = 0 } in
      elim (Bool-cases (leb s.next_post_time now)) [
        | inl late ↦ never_posts now turns due s' http (ground (arith, done, late))
        | inr early ↦
            let same : s ≡ s' = ground (arith, done, early) in
            (
              ap (λ (r : Reporter A). r.posted) (sym same),
              ap (λ (r : Reporter A). r.freed) (sym same),
              omega (arith, ap (λ (r : Reporter A). length r.queue) same),
            )
      ]
