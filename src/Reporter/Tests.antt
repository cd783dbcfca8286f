-- ===== src/Reporter/Tests.antt =====
-- Passes of the reporter over a queue of two items.
use ltntstools.Base.{
  ℕ, ◌+◌, ◌≤◌, ◌≡◌, refl, true, false, Bool, some, List, [], ◌∷◌, max, take, arith, All,
}
use ltntstools.Reporter.{Reporter, Turn, pass, json_item_post_http}
use ltntstools.Reporter.Delivery.{Delivers, arrivals, pass-Delivers}
use ltntstools.Reporter.Ending.{pass_ends}

abbrev turn : Bool → List ℕ → Turn ℕ
turn ok arrived = record { terminate = false; ok = ok; arrived = arrived }

abbrev reporter : List ℕ → List ℕ → ℕ → Reporter ℕ
reporter queue posted next = record {
  queue = queue;
  posted = posted;
  freed = posted;
  failed = 0;
  next_post_time = next;
}

-- A failure, two posts, an item that is pushed meanwhile, and its post.
abbrev turns : List (Turn ℕ)
turns = turn false [] ∷ turn true (30 ∷ []) ∷ turn true [] ∷ turn true [] ∷ []

posted_three :
    pass 100 turns (reporter (10 ∷ 20 ∷ []) [] 0) ≡ some (reporter [] (10 ∷ 20 ∷ 30 ∷ []) 101)
unfolding pass
posted_three = refl

pass-Delivers_example :
    (n : ℕ) × Delivers
      (reporter (10 ∷ 20 ∷ []) [] 0)
      (reporter [] (10 ∷ 20 ∷ 30 ∷ []) 101)
      (arrivals (take n turns))
    × (101 ≤ max 0 (100 + 1))
pass-Delivers_example =
    pass-Delivers 100 turns (reporter (10 ∷ 20 ∷ []) [] 0) (reporter [] (10 ∷ 20 ∷ 30 ∷ []) 101)
      refl posted_three

abbrev failures : List (Turn ℕ)
failures =
    turn false []
    ∷ turn false []
    ∷ turn false []
    ∷ turn false []
    ∷ turn false []
    ∷ turn false []
    ∷ turn false []
    ∷ turn false []
    ∷ []

abbrev waiting : Reporter ℕ
waiting = reporter (10 ∷ []) [] 0

abbrev given_up : Reporter ℕ
given_up = record (reporter (10 ∷ []) [] 101) { failed = 2000 }

eight_failures : pass 100 failures waiting ≡ some given_up
unfolding pass
eight_failures = refl

http_answers : All (λ (t : Turn ℕ). (item : ℕ) → t.ok ≡ json_item_post_http item) failures
unfolding json_item_post_http
http_answers = (
  λ _. refl,
  (λ _. refl, (λ _. refl, (λ _. refl, (λ _. refl, (λ _. refl, (λ _. refl, (λ _. refl, tt))))))),
)

pass_ends_example : (s : Reporter ℕ) × (pass 100 failures (reporter (10 ∷ []) [] 0) ≡ some s)
unfolding arrivals
pass_ends_example = pass_ends 100 failures (reporter (10 ∷ []) [] 0) (omega arith)
