-- ===== src/Threads/Shutdown.antt =====
-- How main and a thread agree on its end.
use ltntstools.Base.{◌≡◌, ◌≢◌, refl, ◌⊎◌, inl, inr, Bool, false, arith}
use ltntstools.Threads.{
  created, looping, returned, waiting, past, Flags, Step, begins, works, tells, returns, ending,
  asks, goes_on, Reach, here, next, fresh_flags,
}

-- The thread is out of its loop.
abbrev pub HasLeft : Flags → Type 0
HasLeft f = (f.thread ≡ ending) ⊎ (f.thread ≡ returned)

-- The thread is out of its loop, or has not said so and main is not past it.
abbrev IsSound : Flags → Type 0
IsSound f = HasLeft f ⊎ ((f.terminated ≡ false) × (f.main ≢ past))

Step-IsSound : {f g : Flags} (breaks : Bool) → Step breaks f g → IsSound f → IsSound g
Step-IsSound _ (begins f c) s = ground arith
Step-IsSound _ (works f l t) s = s
Step-IsSound _ (tells f l t) s = inl (inl refl)
Step-IsSound _ (returns f e) s = inl (inr refl)
Step-IsSound _ (asks f k) (inl r) = inl r
Step-IsSound _ (asks f k) (inr (t, p)) = inr (t, λ e. cc)
Step-IsSound _ (goes_on f w t) (inl r) = inl r
Step-IsSound _ (goes_on f w t) (inr (n, p)) = cc

Reach-IsSound : (breaks : Bool) {f g : Flags} → IsSound f → Reach breaks f g → IsSound g
Reach-IsSound _ s here = s
Reach-IsSound b s (next r st) = Step-IsSound b st (Reach-IsSound b s r)

-- When main is past the wait for a thread, in any order of their steps and however the thread leaves its
-- loop, the thread is out of its loop. It may still be freeing what it has.
pub past-HasLeft :
    (breaks : Bool) (f : Flags) → Reach breaks fresh_flags f → f.main ≡ past → HasLeft f
past-HasLeft breaks f r p = elim (Reach-IsSound breaks (inr (refl, λ e. cc)) r) [
  | inl done ↦ done
  | inr (n, not_past) ↦ absurd (not_past p)
]

abbrev IsStuck : Flags → Type 0
IsStuck f =
    (f.main ≡ waiting) × (f.thread ≡ looping) × (f.terminate ≡ false) × (f.terminated ≡ false)

Step-IsStuck : {f g : Flags} → Step false f g → IsStuck f → IsStuck g
Step-IsStuck (begins f c) s = ground arith
Step-IsStuck (works f l t) s = s
Step-IsStuck (tells f l t) s = ground arith
Step-IsStuck (returns f e) s = ground arith
Step-IsStuck (asks f k) s = ground arith
Step-IsStuck (goes_on f w t) s = ground arith

Reach-IsStuck : {f g : Flags} → IsStuck f → Reach false f g → IsStuck g
Reach-IsStuck s here = s
Reach-IsStuck s (next r st) = Step-IsStuck st (Reach-IsStuck s r)

began-IsStuck :
    {f g : Flags}
    → Step false f g
    → f.main ≡ waiting
    → f.thread ≡ created
    → g.thread ≡ looping
    → IsStuck g
began-IsStuck (begins f c) w k b = (w, refl, refl, refl)
began-IsStuck (works f l t) w k b = cc
began-IsStuck (tells f l t) w k b = cc
began-IsStuck (returns f e) w k b = cc
began-IsStuck (asks f i) w k b = cc
began-IsStuck (goes_on f v t) w k b = cc

-- For a thread that leaves its loop only when told: when main asks before the thread has begun, the
-- thread clears the request as it begins, and from then on main waits whatever steps are made.
pub request_lost :
    (f g h : Flags)
    → f.main ≡ waiting
    → f.thread ≡ created
    → Step false f g
    → g.thread ≡ looping
    → Reach false g h
    → h.main ≡ waiting
request_lost f g h w c step began r = (Reach-IsStuck (began-IsStuck step w c began) r).0
