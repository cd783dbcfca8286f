-- ===== src/Smoother/Loss.antt =====
-- The end of the process when the signal is lost.
use ltntstools.Base.{
  ◌≡◌, ◌≢◌, refl, sym, subst, ◌∙◌, inl, inr, ℕ, ◌+◌, ◌≤◌, Bool, true, false, not, ◌&&◌, Option,
  none, some, List, [], ◌∷◌, ◌++◌, arith, ◌==◌, leb, if◌then◌else◌, All, Option-cases,
}
use ltntstools.Smoother.{
  Library, Context, Read, again, ended, empty, packets, hear, round, thread_packet_rx,
}

-- A read that brings no packets.
abbrev pub IsSilent : Read → Type 0
IsSilent (packets buf) = ⊥
IsSilent _ = Unit

module _ (lib : Library) where
  -- Either the process ends, or the time of the last packet stays.
  abbrev Waits : Context lib → ℕ → Option (Context lib) → Type 0
  Waits ctx time none = Unit
  Waits ctx time (some after) =
      (after.last_packet_time ≡ ctx.last_packet_time)
      × (after.terminate_los_seconds ≡ ctx.terminate_los_seconds)
      × (after.now ≡ time)

  if-Waits :
      (b : Bool) (ctx after : Context lib) (time : ℕ)
      → Waits ctx time (some after)
      → Waits ctx time (if b then none else some after)
  if-Waits true ctx after time h = tt
  if-Waits false ctx after time h = h

  abbrev is_lost : Context lib → Bool
  is_lost ctx =
      not (ctx.terminate_los_seconds == 0)
      && leb (ctx.last_packet_time + ctx.terminate_los_seconds) ctx.now

  round-Waits :
      (ctx : Context lib) (read : Read) (time : ℕ)
      → IsSilent read
      → Waits ctx time (round lib ctx read time)
  unfolding round hear
  round-Waits ctx again time silent =
      if-Waits (is_lost ctx) ctx (record ctx { now = time }) time (refl, refl, refl)
  round-Waits ctx ended time silent =
      if-Waits (is_lost ctx) ctx (record ctx { now = time; running = false }) time
        (refl, refl, refl)
  round-Waits ctx empty time silent =
      if-Waits (is_lost ctx) ctx (record ctx { now = time }) time (refl, refl, refl)
  round-Waits ctx (packets buf) time silent = elim silent [ ]

  round_lost :
      (ctx : Context lib) (read : Read) (time : ℕ)
      → ctx.terminate_los_seconds ≢ 0
      → ctx.last_packet_time + ctx.terminate_los_seconds ≤ ctx.now
      → round lib ctx read time ≡ none
  unfolding round
  round_lost ctx read time limit late = ground arith

  -- With a limit set: when no packets come, and after some read the time since the last packet has
  -- reached the limit, the process has ended by the next round, whatever is read then.
  pub silence_ends :
      (reads rest : List (Read × ℕ)) (read next : Read) (time later : ℕ) (ctx : Context lib)
      → ctx.terminate_los_seconds ≢ 0
      → All (λ r. IsSilent r.0) reads
      → IsSilent read
      → ctx.last_packet_time + ctx.terminate_los_seconds ≤ time
      → thread_packet_rx lib ctx (reads ++ (read, time) ∷ (next, later) ∷ rest) ≡ none
  unfolding thread_packet_rx
  silence_ends [] rest read next time later ctx limit silent quiet late =
      elim (Option-cases (round lib ctx read time)) [
        | inl e ↦ rw (e, thread_packet_rx) refl
        | inr (after, e) ↦
            let (last, los, now) = subst (Waits ctx time) e (round-Waits ctx read time quiet) in
            let lost =
              round_lost after next later (λ z. limit (sym los ∙ z))
                (omega (arith, last, los, now, late)) in
            rw (e, thread_packet_rx, lost) refl
      ]
  silence_ends ((r, t) ∷ reads) rest read next time later ctx limit silent quiet late =
      elim (Option-cases (round lib ctx r t)) [
        | inl e ↦ rw (e, thread_packet_rx) refl
        | inr (after, e) ↦
            let (last, los, now) = subst (Waits ctx t) e (round-Waits ctx r t silent.0) in
            rw (e, thread_packet_rx)
              (silence_ends reads rest read next time later after (λ z. limit (sym los ∙ z))
                silent.1 quiet (omega (arith, last, los, late)))
      ]
