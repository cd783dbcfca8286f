-- ===== src/Reporter/Attempt.antt =====
-- One attempt to post an item, and one round of the loop.
use mathlib.Core.List.{append-nil, append_assoc}
use ltntstools.Base.{
  ◌≡◌, refl, sym, ap, ◌∙◌, ◌⊎◌, ℕ, ◌+◌, true, false, none, some, List, [], ◌∷◌, ◌++◌, leb,
  if◌then◌else◌, Bool-cases, inl, inr,
}
use ltntstools.Reporter.{
  json_queue_peek, json_queue_pop, json_queue_push, pushes, Reporter, Turn, free_item, attempt,
  post_all,
}

module _ {A : Type 0} where
  pub pushes-append : (queue items : List A) → pushes queue items ≡ queue ++ items
  unfolding pushes json_queue_push
  pushes-append queue [] = sym (append-nil queue)
  pushes-append queue (i ∷ items) =
      pushes-append (queue ++ i ∷ []) items ∙ append_assoc queue (i ∷ []) items

  -- The two ends of an attempt, with an item at the front of the queue.
  pub attempt_ok :
      (t : Turn A) (item : A) (queue : List A) (s : Reporter A)
      → s.queue ≡ item ∷ queue
      → t.ok ≡ true
      → attempt t item s ≡ record s {
        queue = queue ++ t.arrived;
        posted = s.posted ++ item ∷ [];
        freed = s.freed ++ item ∷ [];
        failed = 0;
      }
  unfolding attempt json_queue_pop free_item
  attempt_ok t item queue s front ok =
      let more : pushes s.queue t.arrived ≡ item ∷ (queue ++ t.arrived) =
        ap (λ q. pushes q t.arrived) front ∙ pushes-append (item ∷ queue) t.arrived in
      rw (ok, more, attempt) refl

  pub attempt_fail :
      (t : Turn A) (item : A) (s : Reporter A)
      → t.ok ≡ false
      → attempt t item s ≡ record s { queue = s.queue ++ t.arrived; failed = s.failed + 250 }
  unfolding attempt
  attempt_fail t item s fails =
      rw (fails, attempt)
        (ap (λ q. record s { queue = q; failed = s.failed + 250 })
          (pushes-append s.queue t.arrived))

  pub attempt-next_post_time :
      (t : Turn A) (item : A) (queue : List A) (s : Reporter A)
      → s.queue ≡ item ∷ queue
      → (attempt t item s).next_post_time ≡ s.next_post_time
  attempt-next_post_time t item queue s front = elim (Bool-cases t.ok) [
    | inl ok ↦ rw (attempt_ok t item queue s front ok) refl
    | inr fails ↦ rw (attempt_fail t item s fails) refl
  ]

  pub peek-cases :
      (q : List A)
      → (json_queue_peek q ≡ none)
        ⊎ ((item : A) × (rest : List A) × (q ≡ item ∷ rest) × (json_queue_peek q ≡ some item))
  unfolding json_queue_peek
  peek-cases [] = inl refl
  peek-cases (item ∷ rest) = inr (item, rest, refl, refl)

  -- A loop with nothing at the front of the queue.
  pub post_all_empty :
      (now : ℕ) (turns : List (Turn A)) (s : Reporter A)
      → json_queue_peek s.queue ≡ none
      → post_all now turns s ≡ some s
  unfolding post_all
  post_all_empty now [] s e = rw (e, post_all) refl
  post_all_empty now (t ∷ turns) s e = rw (e, post_all) refl

  -- A round of the loop with an item at the front.
  pub post_all_round :
      (now : ℕ) (t : Turn A) (turns : List (Turn A)) (s : Reporter A) (item : A)
      → json_queue_peek s.queue ≡ some item
      → post_all now (t ∷ turns) s ≡ (
          if t.terminate
          then some s
          else if leb 2000 (attempt t item s).failed
          then some (record (attempt t item s) { next_post_time = now + 1 })
          else post_all now turns (attempt t item s))
  unfolding post_all
  post_all_round now t turns s item e = rw (e, post_all) refl
