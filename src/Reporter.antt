-- ===== src/Reporter.antt =====
-- The JSON reporter of nic_monitor: the queue of items (json_queue_* in src/nic_monitor_json.c) and
-- the thread that posts them (json_thread_func in src/nic_monitor.c). Other threads push while an
-- item is being posted. What a post answers is an argument.
pub mod Attempt
pub mod Delivery
pub mod Ending
mod Tests
use ltntstools.Base.{
  ℕ, ◌+◌, Bool, true, false, Option, none, some, List, [], ◌∷◌, ◌++◌, leb, if◌then◌else◌,
}

-- The thread: what has been posted with success and what has been freed, in order, beside the
-- queue; the milliseconds of failed attempts, and the time of the next pass.
pub record Reporter (A : Type 0) : Type 0 where
  pub queue : List A
  pub posted : List A
  pub freed : List A
  pub failed : ℕ
  pub next_post_time : ℕ

-- One round of the inner loop finds this: whether the thread is to end, whether the post has
-- success, and what is pushed while it lasts.
pub record Turn (A : Type 0) : Type 0 where
  pub terminate : Bool
  pub ok : Bool
  pub arrived : List A

module _ {A : Type 0} where
  unfoldable pub json_queue_peek : List A → Option A
  json_queue_peek [] = none
  json_queue_peek (item ∷ rest) = some item

  unfoldable pub json_queue_pop : List A → Option A × List A
  json_queue_pop [] = (none, [])
  json_queue_pop (item ∷ rest) = (some item, rest)

  unfoldable pub json_queue_push : List A → A → List A
  json_queue_push queue item = queue ++ item ∷ []

  unfoldable pub pushes : List A → List A → List A
  unfolding json_queue_push
  pushes queue [] = queue
  pushes queue (item ∷ rest) = pushes (json_queue_push queue item) rest

  -- After a success the item is taken off the list and freed.
  unfoldable pub free_item : Option A × List A → Reporter A → Reporter A
  free_item (none, queue) s = record s { queue = queue }
  free_item (some item, queue) s = record s { queue = queue; freed = s.freed ++ item ∷ [] }

  -- A turn of the loop, with the answer of the post as an argument: json_item_post_http always
  -- answers -1 in the present build, json_item_post_socket tells of success too.
  unfoldable pub attempt : Turn A → A → Reporter A → Reporter A
  unfolding json_queue_pop pushes free_item
  attempt t item s =
      let later : Reporter A = record s { queue = pushes s.queue t.arrived } in
      if t.ok
      then free_item (json_queue_pop later.queue)
          (record later { posted = s.posted ++ item ∷ []; failed = 0 })
      else record later { failed = s.failed + 250 }

  -- `while (item && ctx->json_threadTerminate == 0)`; `none` says that the loop goes on after these
  -- turns.
  unfoldable pub post_all : ℕ → List (Turn A) → Reporter A → Option (Reporter A)
  unfolding json_queue_peek attempt
  post_all now [] s = elim (json_queue_peek s.queue) [ none ↦ some s | some item ↦ none ]
  post_all now (t ∷ turns) s = elim (json_queue_peek s.queue) [
    | none ↦ some s
    | some item ↦
        let next : Reporter A = attempt t item s in
        let rest = post_all now turns next in
        if t.terminate
        then some s
        else if leb 2000 next.failed
        then some (record next { next_post_time = now + 1 })
        else rest
  ]

  -- One round of the thread: a pass if it is due, a second after the last one.
  unfoldable pub pass : ℕ → List (Turn A) → Reporter A → Option (Reporter A)
  unfolding post_all
  pass now turns s =
      if leb s.next_post_time now
      then post_all now turns (record s { next_post_time = now + 1; failed = 0 })
      else some s

  -- json_item_post_http, whose request is compiled out: it answers -1.
  unfoldable pub json_item_post_http : A → Bool
  json_item_post_http item = false
