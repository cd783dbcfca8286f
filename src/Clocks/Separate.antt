-- ===== src/Clocks/Separate.antt =====
-- The entries of the PIDs are apart: only its own packets change one.
use ltntstools.Base.{
  ◌≡◌, refl, ap, ◌∙◌, inl, inr, ℕ, Bool, true, false, none, some, List, [], ◌∷◌, ◌==◌, ==_iff,
  ==_refl, if◌then◌else◌, Bool-cases, Option-cases,
}
use ltntstools.Clocks.{
  Library, Pid, Context, packet_pid, scr_pid, set_pid, process_packet_stats, process_scr_stats,
  process_packet, process_packets,
}

kept : (pids : ℕ → Pid) (j k : ℕ) → pids k ≡ (if j == k then pids k else pids k)
kept pids j k = elim (Bool-cases (j == k)) [ inl h ↦ rw h refl | inr h ↦ rw h refl ]

written :
    (pids : ℕ → Pid) (j k : ℕ) (f : Pid → Pid)
    → (if j == k then f (pids j) else pids k) ≡ (if j == k then f (pids k) else pids k)
written pids j k f = elim (Bool-cases (j == k)) [
  | inl h ↦ rw h (ap (λ i. f (pids i)) ((==_iff j k).0 h))
  | inr h ↦ rw h refl
]

written_twice :
    (pids : ℕ → Pid) (j k : ℕ) (f g : Pid → Pid)
    → (if j == k
        then g (if j == j then f (pids j) else pids j)
        else if j == k
        then f (pids j)
        else pids k)
      ≡ (if j == k then g (f (pids k)) else pids k)
written_twice pids j k f g = elim (Bool-cases (j == k)) [
  | inl h ↦ rw (h, ==_refl j) (ap (λ i. g (f (pids i))) ((==_iff j k).0 h))
  | inr h ↦ rw h refl
]

module _ (lib : Library) where
  -- The packets of a PID.
  unfoldable pub of_pid : ℕ → List lib.Packet → List lib.Packet
  of_pid k [] = []
  of_pid k (p ∷ ps) = if lib.pid p == k then p ∷ of_pid k ps else of_pid k ps

  -- The entry of a PID after a packet of its own, and after several.
  unfoldable pub enter : Bool → Bool → ℕ → Pid → lib.Packet → Pid
  enter packets scrs now q p =
      let counted : Pid = if packets then packet_pid lib q p else q in
      if scrs then elim (lib.scr p) [ none ↦ counted | some s ↦ scr_pid now counted s ] else counted

  unfoldable pub enters : Bool → Bool → ℕ → Pid → List lib.Packet → Pid
  unfolding enter
  enters packets scrs now q [] = q
  enters packets scrs now q (p ∷ ps) = enters packets scrs now (enter packets scrs now q p) ps

  -- What holds of the context after a packet.
  abbrev Seen : Context → lib.Packet → Context → Type 0
  Seen ctx p after =
      (after.initial_time ≡ ctx.initial_time)
      × (after.do_packet_statistics ≡ ctx.do_packet_statistics)
      × (after.do_scr_statistics ≡ ctx.do_scr_statistics)
      × ((k : ℕ)
          → after.pids k ≡ (
              if lib.pid p == k
              then enter ctx.do_packet_statistics ctx.do_scr_statistics ctx.initial_time
                  (ctx.pids k) p
              else ctx.pids k))

  abbrev pub context : ℕ → ℕ → (ℕ → Pid) → Bool → Bool → Context
  context now stream pids packets scrs = record {
    initial_time = now;
    current_stream_time = stream;
    pids = pids;
    do_packet_statistics = packets;
    do_scr_statistics = scrs;
  }

  process_packet-Seen :
      (now stream : ℕ) (pids : ℕ → Pid) (packets scrs : Bool) (p : lib.Packet)
      → Seen
          (context now stream pids packets scrs)
          p
          (process_packet lib (context now stream pids packets scrs) p)
  unfolding process_packet process_packet_stats process_scr_stats set_pid enter
  process_packet-Seen now stream pids false false p =
      (refl, refl, refl, λ k. kept pids (lib.pid p) k)
  process_packet-Seen now stream pids true false p =
      (refl, refl, refl, λ k. written pids (lib.pid p) k (λ q. packet_pid lib q p))
  process_packet-Seen now stream pids false true p = elim (Option-cases (lib.scr p)) [
    | inl h ↦
        rw (h, process_packet, process_scr_stats) (refl, refl, refl, λ k. kept pids (lib.pid p) k)
    | inr (s, h) ↦
        rw (h, process_packet, process_scr_stats)
          (refl, refl, refl, λ k. written pids (lib.pid p) k (λ q. scr_pid now q s))
  ]
  process_packet-Seen now stream pids true true p = elim (Option-cases (lib.scr p)) [
    | inl h ↦
        rw (h, process_packet, process_scr_stats)
          (refl, refl, refl, λ k. written pids (lib.pid p) k (λ q. packet_pid lib q p))
    | inr (s, h) ↦
        rw (h, process_packet, process_scr_stats)
          (
            refl,
            refl,
            refl,
            λ k. written_twice pids (lib.pid p) k (λ q. packet_pid lib q p) (λ q. scr_pid now q s),
          )
  ]

  enters_same :
      (a a' b b' : Bool) (n n' : ℕ) (q q' : Pid) (ps : List lib.Packet)
      → a ≡ a'
      → b ≡ b'
      → n ≡ n'
      → q ≡ q'
      → enters a b n q ps ≡ enters a' b' n' q' ps
  enters_same a a' b b' n n' q q' ps ha hb hn hq = cc

  -- After any packets the entry of a PID is what its own packets make of it.
  pub process_packets-enters :
      (ps : List lib.Packet) (ctx : Context) (k : ℕ)
      → (process_packets lib ctx ps).pids k
        ≡ enters ctx.do_packet_statistics ctx.do_scr_statistics ctx.initial_time
            (ctx.pids k)
            (of_pid k ps)
  unfolding process_packets enters of_pid
  process_packets-enters [] ctx k = refl
  process_packets-enters (p ∷ ps) ctx k =
      let next = process_packet lib ctx p in
      let (now, packets, scrs, pids) =
        process_packet-Seen ctx.initial_time ctx.current_stream_time ctx.pids
          ctx.do_packet_statistics ctx.do_scr_statistics p in
      let after = process_packets-enters ps next k in
      let seen =
        enter ctx.do_packet_statistics ctx.do_scr_statistics ctx.initial_time (ctx.pids k) p in
      let choose = λ (b : Bool). if b then seen else ctx.pids k in
      let same =
        enters_same next.do_packet_statistics ctx.do_packet_statistics next.do_scr_statistics
          ctx.do_scr_statistics next.initial_time ctx.initial_time (next.pids k) in
      elim (Bool-cases (lib.pid p == k)) [
        | inl h ↦ rw h (after ∙ same seen (of_pid k ps) packets scrs now (pids k ∙ ap choose h))
        | inr h ↦
            rw h (after ∙ same (ctx.pids k) (of_pid k ps) packets scrs now (pids k ∙ ap choose h))
      ]

  -- The options and the time of the start stay.
  pub process_packets-keeps :
      (ps : List lib.Packet) (ctx : Context)
      → ((process_packets lib ctx ps).initial_time ≡ ctx.initial_time)
        × ((process_packets lib ctx ps).do_packet_statistics ≡ ctx.do_packet_statistics)
        × ((process_packets lib ctx ps).do_scr_statistics ≡ ctx.do_scr_statistics)
  unfolding process_packets
  process_packets-keeps [] ctx = (refl, refl, refl)
  process_packets-keeps (p ∷ ps) ctx =
      let (now, packets, scrs, pids) =
        process_packet-Seen ctx.initial_time ctx.current_stream_time ctx.pids
          ctx.do_packet_statistics ctx.do_scr_statistics p in
      let (now_after, packets_after, scrs_after) =
        process_packets-keeps ps (process_packet lib ctx p) in
      (now_after ∙ now, packets_after ∙ packets, scrs_after ∙ scrs)
