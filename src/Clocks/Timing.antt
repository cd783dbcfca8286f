-- ===== src/Clocks/Timing.antt =====
-- The clock of a PID and the time of the stream that is shown with every error.
use ltntstools.Base.{
  ◌≡◌, refl, subst, ◌∙◌, inl, inr, ℕ, ◌+◌, ◌<◌, ◌≤◌, ◌%◌, ◌^◌, Bool, true, false, none, some, List,
  [], ◌∷◌, arith, length, if◌then◌else◌, Bool-cases, Option-cases, lt→ltb,
}
use ltntstools.Clocks.{
  Library, Pid, packet_pid, scr_pid, is_cc_error, process_packets, zeroes, fresh,
}
use ltntstools.Clocks.Separate.{of_pid, enter, enters, process_packets-enters}

-- The last of a number and a list.
unfoldable pub last_of : ℕ → List ℕ → ℕ
last_of s [] = s
last_of s (t ∷ ts) = last_of t ts

-- The fields of the clock.
abbrev pub HasClock : Pid → ℕ → ℕ → ℕ → ℕ → Type 0
HasClock q first time last count =
    (q.scr_first ≡ first)
    × (q.scr_first_time ≡ time)
    × (q.scr ≡ last)
    × (q.scr_update_count ≡ count)

-- The clock of SCRs of which the first came at a time: it starts there, and is at the last.
abbrev pub IsClockOf : Pid → ℕ → List ℕ → Type 0
IsClockOf q now [] = HasClock q 0 0 0 0
IsClockOf q now (s ∷ ss) = HasClock q s now (last_of s ss) (1 + length ss)

mod_small : (c : ℕ) → c + 1 < 2 ^ 64 → (c + 1) % 2 ^ 64 ≡ c + 1
mod_small c few = omega (arith, few)

-- A running clock keeps its start.
pub scr_pid-running :
    (now s f t l c : ℕ) (q : Pid)
    → 1 ≤ c
    → c + 1 < 2 ^ 64
    → HasClock q f t l c
    → HasClock (scr_pid now q s) f t s (c + 1)
unfolding scr_pid
scr_pid-running now s f t l c q one few (hf, ht, hl, hc) =
    rw (hc, lt→ltb 0 c one) (hf, ht, refl, mod_small c few)

pub scr_pid-starting :
    (now s f t l : ℕ) (q : Pid) → HasClock q f t l 0 → HasClock (scr_pid now q s) s now s 1
unfolding scr_pid
scr_pid-starting now s f t l q (hf, ht, hl, hc) = rw hc (refl, refl, refl, refl)

module _ (lib : Library) where
  -- The SCRs of packets.
  unfoldable pub scrs_of : List lib.Packet → List ℕ
  scrs_of [] = []
  scrs_of (p ∷ ps) = elim (lib.scr p) [ none ↦ scrs_of ps | some s ↦ s ∷ scrs_of ps ]

  packet_pid-HasClock :
      (q : Pid) (p : lib.Packet)
      → HasClock (packet_pid lib q p) q.scr_first q.scr_first_time q.scr q.scr_update_count
  unfolding packet_pid
  packet_pid-HasClock q p =
      elim (Bool-cases (is_cc_error lib (record q { pkt_count = (q.pkt_count + 1) % 2 ^ 64 }) p)) [
        | inl h ↦ rw h (refl, refl, refl, refl)
        | inr h ↦ rw h (refl, refl, refl, refl)
      ]

  pub counted-HasClock :
      (b : Bool) (q : Pid) (p : lib.Packet) (f t l c : ℕ)
      → HasClock q f t l c
      → HasClock (if b then packet_pid lib q p else q) f t l c
  counted-HasClock true q p f t l c (hf, ht, hl, hc) =
      let (a, b, d, e) = packet_pid-HasClock q p in (a ∙ hf, b ∙ ht, d ∙ hl, e ∙ hc)
  counted-HasClock false q p f t l c has = has

  scrs_of-none :
      (p : lib.Packet) (ps : List lib.Packet) → lib.scr p ≡ none → scrs_of (p ∷ ps) ≡ scrs_of ps
  unfolding scrs_of
  scrs_of-none p ps h = rw (h, scrs_of) refl

  scrs_of-some :
      (p : lib.Packet) (ps : List lib.Packet) (s : ℕ)
      → lib.scr p ≡ some s
      → scrs_of (p ∷ ps) ≡ s ∷ scrs_of ps
  unfolding scrs_of
  scrs_of-some p ps s h = rw (h, scrs_of) refl

  enters-none :
      (packets : Bool) (now : ℕ) (q : Pid) (p : lib.Packet) (ps : List lib.Packet)
      → lib.scr p ≡ none
      → enters lib packets true now q (p ∷ ps)
        ≡ enters lib packets true now (if packets then packet_pid lib q p else q) ps
  unfolding enters enter
  enters-none packets now q p ps h = rw (h, enters, enter) refl

  enters-some :
      (packets : Bool) (now : ℕ) (q : Pid) (p : lib.Packet) (ps : List lib.Packet) (s : ℕ)
      → lib.scr p ≡ some s
      → enters lib packets true now q (p ∷ ps)
        ≡ enters lib packets true now (scr_pid now (if packets then packet_pid lib q p else q) s) ps
  unfolding enters enter
  enters-some packets now q p ps s h = rw (h, enters, enter) refl

  enters-running :
      (packets : Bool) (now f t l c : ℕ) (ps : List lib.Packet) (q : Pid)
      → 1 ≤ c
      → c + length (scrs_of ps) < 2 ^ 64
      → HasClock q f t l c
      → HasClock
          (enters lib packets true now q ps)
          f
          t
          (last_of l (scrs_of ps))
          (c + length (scrs_of ps))
  unfolding enters last_of scrs_of
  enters-running packets now f t l c [] q one few (hf, ht, hl, hc) = (hf, ht, hl, omega (arith, hc))
  enters-running packets now f t l c (p ∷ ps) q one few has =
      let counted = if packets then packet_pid lib q p else q in
      let counted_has = counted-HasClock packets q p f t l c has in
      elim (Option-cases (lib.scr p)) [
        | inl h ↦
            rw (enters-none packets now q p ps h, scrs_of-none p ps h)
              (enters-running packets now f t l c ps counted one
                (subst (λ l. c + length l < 2 ^ 64) (scrs_of-none p ps h) few) counted_has)
        | inr (s, h) ↦
            let few_more = subst (λ l. c + length l < 2 ^ 64) (scrs_of-some p ps s h) few in
            let (hf, ht, hl, hc) =
              enters-running packets now f t s (c + 1) ps (scr_pid now counted s) (omega arith)
                (omega (arith, few_more))
                (scr_pid-running now s f t l c counted one (omega (arith, few_more)) counted_has) in
            rw (enters-some packets now q p ps s h, scrs_of-some p ps s h)
              (hf, ht, hl, omega (arith, hc))
      ]

  enters-IsClockOf :
      (packets : Bool) (now : ℕ) (ps : List lib.Packet) (q : Pid)
      → length (scrs_of ps) < 2 ^ 64
      → HasClock q 0 0 0 0
      → IsClockOf (enters lib packets true now q ps) now (scrs_of ps)
  unfolding enters scrs_of
  enters-IsClockOf packets now [] q few has = has
  enters-IsClockOf packets now (p ∷ ps) q few has =
      let counted = if packets then packet_pid lib q p else q in
      let counted_has = counted-HasClock packets q p 0 0 0 0 has in
      elim (Option-cases (lib.scr p)) [
        | inl h ↦
            rw (enters-none packets now q p ps h, scrs_of-none p ps h)
              (enters-IsClockOf packets now ps counted
                (subst (λ l. length l < 2 ^ 64) (scrs_of-none p ps h) few) counted_has)
        | inr (s, h) ↦
            let few_more = subst (λ l. length l < 2 ^ 64) (scrs_of-some p ps s h) few in
            rw (enters-some packets now q p ps s h, scrs_of-some p ps s h)
              (enters-running packets now s now s 1 ps (scr_pid now counted s) (omega arith)
                (omega (arith, few_more)) (scr_pid-starting now s 0 0 0 counted counted_has))
      ]

  -- With the clocks on, on a stream with fewer than 2^64 SCRs of a PID: the entry of the PID has its
  -- first SCR with the initial time, its last SCR, and the number of its SCRs, whatever other
  -- packets lie between and whether or not the packets are counted as well; before the first SCR
  -- the four fields of its clocks are blank.
  pub clocks_lem :
      (now k : ℕ) (packets : Bool) (ps : List lib.Packet)
      → length (scrs_of (of_pid lib k ps)) < 2 ^ 64
      → IsClockOf
          ((process_packets lib (fresh now packets true) ps).pids k)
          now
          (scrs_of (of_pid lib k ps))
  clocks_lem now k packets ps few =
      rw (process_packets-enters lib ps (fresh now packets true) k)
        (enters-IsClockOf packets now (of_pid lib k ps) zeroes few (refl, refl, refl, refl))
