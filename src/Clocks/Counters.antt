-- ===== src/Clocks/Counters.antt =====
-- The packets and the continuity errors that are counted for a PID.
use ltntstools.Base.{
  ◌≡◌, refl, sym, ap, ◌∙◌, inl, inr, ℕ, ◌+◌, ◌<◌, ◌≤◌, ◌%◌, ◌^◌, and-0xf, Bool, true, false, not,
  ◌&&◌, ◌||◌, List, [], ◌∷◌, arith, length, All, ◌==◌, ==_iff, if◌then◌else◌, Bool-cases,
  Option-cases, ltb,
}
use ltntstools.Clocks.{
  Library, Pid, null_pid, is_cc_error, packet_pid, scr_pid, process_packets, zeroes, fresh,
}
use ltntstools.Clocks.Separate.{of_pid, enter, enters, process_packets-enters}

mod_mod : (n : ℕ) → n % 2 ^ 32 % 16 ≡ n % 16
mod_mod n = omega arith

scr_pid-keeps :
    (now : ℕ) (q : Pid) (s : ℕ)
    → ((scr_pid now q s).pkt_count ≡ q.pkt_count)
      × ((scr_pid now q s).cc ≡ q.cc)
      × ((scr_pid now q s).cc_errors ≡ q.cc_errors)
unfolding scr_pid
scr_pid-keeps now q s = elim (Bool-cases (ltb 0 q.scr_update_count)) [
  | inl h ↦ rw h (refl, refl, refl)
  | inr h ↦ rw h (refl, refl, refl)
]

errors_step :
    (c e : ℕ) (j n : Bool)
    → 1 ≤ c
    → c + 1 < 2 ^ 64
    → e < c
    → (if ltb 1 ((c + 1) % 2 ^ 64) && (j && not n) then (e + 1) % 2 ^ 64 else e)
      ≡ e + (if n then 0 else if j then 1 else 0)
errors_step c e true false one few less = ground arith
errors_step c e true true one few less = ground arith
errors_step c e false n one few less = ground arith

-- The jumps of a PID, of which the null packets' are not counted.
unfoldable pub counted_jumps : ℕ → ℕ → ℕ
counted_jumps k n = if k == null_pid then 0 else n

counted_jumps-add : (k a b : ℕ) → counted_jumps k a + counted_jumps k b ≡ counted_jumps k (a + b)
unfolding counted_jumps
counted_jumps-add k a b = ground arith

counted_jumps_zero : (k : ℕ) → counted_jumps k 0 ≡ 0
unfolding counted_jumps
counted_jumps_zero k = ground arith

counted_jumps-le : (k : ℕ) (b : Bool) → counted_jumps k (if b then 1 else 0) ≤ 1
unfolding counted_jumps
counted_jumps-le k true = ground arith
counted_jumps-le k false = ground arith

module _ (lib : Library) where
  -- With a payload, and a counter that does not follow the counter of the packet before.
  unfoldable pub is_jump : ℕ → lib.Packet → Bool
  is_jump before p =
      (lib.adaption_field_control p == 1 || lib.adaption_field_control p == 3)
      && not ((before + 1) % 16 == lib.continuity_counter p)

  unfoldable pub jumps_after : ℕ → List lib.Packet → ℕ
  unfolding is_jump
  jumps_after before [] = 0
  jumps_after before (p ∷ ps) =
      (if is_jump before p then 1 else 0) + jumps_after (lib.continuity_counter p) ps

  unfoldable pub jumps : List lib.Packet → ℕ
  unfolding jumps_after
  jumps [] = 0
  jumps (p ∷ ps) = jumps_after (lib.continuity_counter p) ps

  -- What a packet does to the counters, of which the SCR changes none.
  abbrev Counted : Pid → lib.Packet → Pid → Type 0
  Counted q p after =
      (after.pkt_count ≡ (q.pkt_count + 1) % 2 ^ 64)
      × (after.cc ≡ lib.continuity_counter p)
      × (after.cc_errors ≡ (
          if ltb 1 ((q.pkt_count + 1) % 2 ^ 64) && (is_jump q.cc p && not (lib.pid p == null_pid))
          then (q.cc_errors + 1) % 2 ^ 64
          else q.cc_errors))

  and_reorder : (a b c d : Bool) → (a && (b && (c && d))) ≡ (b && ((a && c) && d))
  and_reorder true true c d = refl
  and_reorder true false c d = refl
  and_reorder false true c d = refl
  and_reorder false false c d = refl

  is_cc_error-is_jump :
      (q : Pid) (p : lib.Packet)
      → is_cc_error lib q p ≡ (ltb 1 q.pkt_count && (is_jump q.cc p && not (lib.pid p == null_pid)))
  unfolding is_cc_error is_jump
  is_cc_error-is_jump q p =
      rw (and-0xf ((q.cc + 1) % 2 ^ 32), mod_mod (q.cc + 1))
        (and_reorder (lib.adaption_field_control p == 1 || lib.adaption_field_control p == 3)
          (ltb 1 q.pkt_count) (not ((q.cc + 1) % 16 == lib.continuity_counter p))
          (not (lib.pid p == null_pid)))

  packet_pid-Counted : (q : Pid) (p : lib.Packet) → Counted q p (packet_pid lib q p)
  unfolding packet_pid
  packet_pid-Counted q p =
      let counted : Pid = record q { pkt_count = (q.pkt_count + 1) % 2 ^ 64 } in
      elim (Bool-cases (is_cc_error lib counted p)) [
        | inl h ↦ rw (h, sym (is_cc_error-is_jump counted p) ∙ h) (refl, refl, refl)
        | inr h ↦ rw (h, sym (is_cc_error-is_jump counted p) ∙ h) (refl, refl, refl)
      ]

  enter-Counted :
      (now : ℕ) (scrs : Bool) (q : Pid) (p : lib.Packet) → Counted q p (enter lib true scrs now q p)
  unfolding enter
  enter-Counted now false q p = packet_pid-Counted q p
  enter-Counted now true q p =
      let (count, cc, errors) = packet_pid-Counted q p in
      elim (Option-cases (lib.scr p)) [
        | inl h ↦ rw h (count, cc, errors)
        | inr (s, h) ↦
            let (same_count, same_cc, same_errors) = scr_pid-keeps now (packet_pid lib q p) s in
            rw h (same_count ∙ count, same_cc ∙ cc, same_errors ∙ errors)
      ]

  enter-counts :
      (k now : ℕ) (scrs : Bool) (q : Pid) (p : lib.Packet)
      → lib.pid p ≡ k
      → 1 ≤ q.pkt_count
      → q.pkt_count + 1 < 2 ^ 64
      → q.cc_errors < q.pkt_count
      → ((enter lib true scrs now q p).pkt_count ≡ q.pkt_count + 1)
        × ((enter lib true scrs now q p).cc ≡ lib.continuity_counter p)
        × ((enter lib true scrs now q p).cc_errors
            ≡ q.cc_errors + counted_jumps k (if is_jump q.cc p then 1 else 0))
  unfolding counted_jumps
  enter-counts k now scrs q p own one few less =
      let (count, cc, errors) = enter-Counted now scrs q p in
      (
        count ∙ omega (arith, few),
        cc,
        errors
            ∙ errors_step q.pkt_count q.cc_errors (is_jump q.cc p) (lib.pid p == null_pid) one few
                less
            ∙ ap (λ j. q.cc_errors + counted_jumps j (if is_jump q.cc p then 1 else 0)) own,
      )

  -- From a first packet on.
  enters-jumps_after :
      (k now : ℕ) (scrs : Bool) (ps : List lib.Packet) (q : Pid)
      → All (λ p. lib.pid p ≡ k) ps
      → 1 ≤ q.pkt_count
      → q.pkt_count + length ps < 2 ^ 64
      → q.cc_errors < q.pkt_count
      → ((enters lib true scrs now q ps).pkt_count ≡ q.pkt_count + length ps)
        × ((enters lib true scrs now q ps).cc_errors
            ≡ q.cc_errors + counted_jumps k (jumps_after q.cc ps))
  unfolding enters jumps_after
  enters-jumps_after k now scrs [] q own one few less =
      (omega arith, omega (arith, counted_jumps_zero k))
  enters-jumps_after k now scrs (p ∷ ps) q own one few less =
      let next = enter lib true scrs now q p in
      let (count, cc, errors) = enter-counts k now scrs q p own.0 one (omega (arith, few)) less in
      let (counts, all_errors) =
        enters-jumps_after k now scrs ps next own.1 (omega (arith, count))
          (omega (arith, count, few))
          (omega (arith, count, errors, counted_jumps-le k (is_jump q.cc p))) in
      let same = ap (λ c. counted_jumps k (jumps_after c ps)) cc in
      let sum =
        counted_jumps-add k (if is_jump q.cc p then 1 else 0)
          (jumps_after (lib.continuity_counter p) ps) in
      (omega (arith, counts, count), omega (arith, all_errors, errors, same, sum))

  of_pid-All : (k : ℕ) (ps : List lib.Packet) → All (λ p. lib.pid p ≡ k) (of_pid lib k ps)
  unfolding of_pid
  of_pid-All k [] = tt
  of_pid-All k (p ∷ ps) = elim (Bool-cases (lib.pid p == k)) [
    | inl h ↦ rw h ((==_iff (lib.pid p) k).0 h, of_pid-All k ps)
    | inr h ↦ rw h (of_pid-All k ps)
  ]

  enters-jumps :
      (k now : ℕ) (scrs : Bool) (ps : List lib.Packet)
      → All (λ p. lib.pid p ≡ k) ps
      → length ps < 2 ^ 64
      → ((enters lib true scrs now zeroes ps).pkt_count ≡ length ps)
        × ((enters lib true scrs now zeroes ps).cc_errors ≡ counted_jumps k (jumps ps))
  unfolding enters jumps
  enters-jumps k now scrs [] own few = (refl, sym (counted_jumps_zero k))
  enters-jumps k now scrs (p ∷ ps) own few =
      let next = enter lib true scrs now zeroes p in
      let (count, cc, errors) = enter-Counted now scrs zeroes p in
      let (counts, all_errors) =
        enters-jumps_after k now scrs ps next own.1 (omega (arith, count))
          (omega (arith, count, few)) (omega (arith, count, errors)) in
      let same = ap (λ c. counted_jumps k (jumps_after c ps)) cc in
      (omega (arith, counts, count), omega (arith, all_errors, errors, same))

  -- With the packet statistics on, on a stream with fewer than 2^64 packets of a PID: the tool has
  -- counted the packets of the PID, and as many errors as there are packets with a payload whose
  -- counter does not follow that of the packet before with the same PID, none for the null PID,
  -- whatever other packets lie between and whether or not the clocks are read as well.
  pub counters_lem :
      (now k : ℕ) (scrs : Bool) (ps : List lib.Packet)
      → length (of_pid lib k ps) < 2 ^ 64
      → (((process_packets lib (fresh now true scrs) ps).pids k).pkt_count
          ≡ length (of_pid lib k ps))
        × (((process_packets lib (fresh now true scrs) ps).pids k).cc_errors
            ≡ counted_jumps k (jumps (of_pid lib k ps)))
  counters_lem now k scrs ps few =
      rw (process_packets-enters lib ps (fresh now true scrs) k)
        (enters-jumps k now scrs (of_pid lib k ps) (of_pid-All k ps) few)
