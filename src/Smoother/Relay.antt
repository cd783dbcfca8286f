-- ===== src/Smoother/Relay.antt =====
-- With a PCR PID given, everything that is read is handed on.
use ltntstools.Base.{
  ◌≡◌, ◌≢◌, refl, sym, ap, subst, ◌∙◌, inl, inr, ℕ, ◌+◌, Bool, not, ◌&&◌, Option, none, some, List,
  [], ◌∷◌, ◌++◌, ◌==◌, leb, if◌then◌else◌, Bool-cases, Option-cases,
}
use mathlib.Core.List.{append-nil, append_assoc}
use ltntstools.Smoother.{
  Packet, Library, Context, Read, again, ended, empty, packets, filter_packets, receive, hear,
  round, thread_packet_rx,
}
use ltntstools.Smoother.Passing.{Laws, HasPmt, Passed, filter_packets-IsClean}
use ltntstools.Smoother.Safety.{
  HasOne, OnSome, IsKnown, Handed, receive-Handed, IsSafe, receive-IsSafe,
}

-- The packets of the reads, in order.
unfoldable pub sent : List (Read × ℕ) → List Packet
sent [] = []
sent ((again, time) ∷ rest) = sent rest
sent ((ended, time) ∷ rest) = sent rest
sent ((empty, time) ∷ rest) = sent rest
sent ((packets buf, time) ∷ rest) = buf ++ sent rest

abbrev pub sent_by : Read → List Packet
sent_by (packets buf) = buf
sent_by _ = []

module _ (lib : Library) (laws : Laws lib) (filter : ℕ → Bool) (pmt : ℕ) where
  Passed-append :
      (ps qs rs ts : List Packet)
      → Passed lib filter pmt ps qs
      → Passed lib filter pmt rs ts
      → Passed lib filter pmt (ps ++ rs) (qs ++ ts)
  Passed-append [] [] rs ts h k = k
  Passed-append [] (q ∷ qs) rs ts h k = elim h [ ]
  Passed-append (p ∷ ps) [] rs ts h k = elim h [ ]
  Passed-append (p ∷ ps) (q ∷ qs) rs ts h k = (h.0, Passed-append ps qs rs ts h.1 k)

  -- From a context to a later one, the packets `ps` were handed on.
  abbrev pub Relays : Context lib → List Packet → Context lib → Type 0
  Relays ctx ps after =
      IsSafe lib laws filter pmt after
      × IsKnown lib after
      × ((qs : List Packet) × (after.written ≡ ctx.written ++ qs) × Passed lib filter pmt ps qs)

  receive-Relays :
      (ctx : Context lib) (buf : List Packet)
      → IsSafe lib laws filter pmt ctx
      → IsKnown lib ctx
      → OnSome lib (Relays ctx buf) (receive lib ctx buf)
  receive-Relays ctx buf safe known =
      let (same_filter, same_pmt, has, one, clean) = safe in
      let (keeps, has_after, all_clean, passed) = filter_packets-IsClean lib laws buf ctx has in
      let handed = receive-Handed lib ctx buf (subst (HasOne lib) (sym keeps) one) in
      let safe_after = receive-IsSafe lib laws filter pmt ctx buf safe in
      elim (Option-cases (receive lib ctx buf)) [
        | inl e ↦ rw e tt
        | inr (after, e) ↦
            let (f, p, n, one_after, w, still) = subst (OnSome lib (Handed lib ctx buf)) e handed in
            let (known_after, ready) = still (subst (IsKnown lib) (sym keeps) known) in
            let qs = (filter_packets lib ctx buf).1 in
            rw e (
              subst (OnSome lib (IsSafe lib laws filter pmt)) e safe_after,
              known_after,
              (
                qs,
                w
                    ∙ ap (λ b. (filter_packets lib ctx buf).0.written ++ (if b then [] else qs))
                        ready
                    ∙ ap (λ (c : Context lib). c.written ++ qs) keeps,
                subst (λ k. Passed lib filter k buf qs) same_pmt
                    (subst (λ g. Passed lib g ctx.spts_pmt_pid buf qs) same_filter passed),
              ),
            )
      ]

  hear-Relays :
      (ctx : Context lib) (read : Read)
      → IsSafe lib laws filter pmt ctx
      → IsKnown lib ctx
      → OnSome lib (Relays ctx (sent_by read)) (hear lib ctx read)
  unfolding hear
  hear-Relays ctx again safe known = (safe, known, ([], sym (append-nil ctx.written), tt))
  hear-Relays ctx ended safe known = (safe, known, ([], sym (append-nil ctx.written), tt))
  hear-Relays ctx empty safe known = (safe, known, ([], sym (append-nil ctx.written), tt))
  hear-Relays ctx (packets buf) safe known = receive-Relays ctx buf safe known

  round-Relays :
      (ctx : Context lib) (read : Read) (time : ℕ)
      → IsSafe lib laws filter pmt ctx
      → IsKnown lib ctx
      → OnSome lib (Relays ctx (sent_by read)) (round lib ctx read time)
  unfolding round
  round-Relays ctx read time safe known =
      elim (Bool-cases (
        not (ctx.terminate_los_seconds == 0)
        && leb (ctx.last_packet_time + ctx.terminate_los_seconds) ctx.now)) [
          | inl lost ↦ rw lost tt
          | inr fed ↦ rw fed (hear-Relays (record ctx { now = time }) read safe known)
        ]

  sent_cons :
      (read : Read) (time : ℕ) (rest : List (Read × ℕ))
      → sent ((read, time) ∷ rest) ≡ sent_by read ++ sent rest
  unfolding sent
  sent_cons again time rest = refl
  sent_cons ended time rest = refl
  sent_cons empty time rest = refl
  sent_cons (packets buf) time rest = refl

  OnSome-map :
      (P Q : Context lib → Type 0) (o : Option (Context lib))
      → ((c : Context lib) → P c → Q c)
      → OnSome lib P o
      → OnSome lib Q o
  OnSome-map P Q none f h = tt
  OnSome-map P Q (some c) f h = f c h

  Relays-trans :
      (a b c : Context lib) (ps rs : List Packet)
      → Relays a ps b
      → Relays b rs c
      → Relays a (ps ++ rs) c
  Relays-trans a b c ps rs (_, _, (qs, w, passed)) (safe, known, (ts, w', passed')) = (
    safe,
    known,
    (
      qs ++ ts,
      w' ∙ ap (λ l. l ++ ts) w ∙ append_assoc a.written qs ts,
      Passed-append ps qs rs ts passed passed',
    ),
  )

  thread-Relays_from :
      (reads : List (Read × ℕ)) (ctx : Context lib)
      → IsSafe lib laws filter pmt ctx
      → IsKnown lib ctx
      → OnSome lib (Relays ctx (sent reads)) (thread_packet_rx lib ctx reads)
  unfolding thread_packet_rx sent
  thread-Relays_from [] ctx safe known = (safe, known, ([], sym (append-nil ctx.written), tt))
  thread-Relays_from ((read, time) ∷ reads) ctx safe known =
      elim (Option-cases (round lib ctx read time)) [
        | inl e ↦ rw (e, thread_packet_rx) tt
        | inr (one, e) ↦
            let first =
              subst (OnSome lib (Relays ctx (sent_by read))) e
                (round-Relays ctx read time safe known) in
            let (safe_one, known_one, _) = first in
            rw (e, thread_packet_rx)
              (subst (λ l. OnSome lib (Relays ctx l) (thread_packet_rx lib one reads))
                (sym (sent_cons read time reads))
                (OnSome-map (Relays one (sent reads)) (Relays ctx (sent_by read ++ sent reads))
                  (thread_packet_rx lib one reads)
                  (λ after. Relays-trans ctx one after (sent_by read) (sent reads) first)
                  (thread-Relays_from reads one safe_one known_one)))
      ]

  -- With the PCR PID given, from a start with no smoother and nothing written, and while the
  -- process is not ended: what was handed to the smoother is what was read, packet by packet in
  -- order, with null packets in the place of those that the filter blocks; only packets on the
  -- PID of the PMT may be others.
  pub thread-Passed :
      (reads : List (Read × ℕ)) (ctx : Context lib)
      → ctx.filter ≡ filter
      → ctx.spts_pmt_pid ≡ pmt
      → HasPmt lib ctx
      → ctx.smoothers ≡ []
      → ctx.written ≡ []
      → ctx.sm ≡ none
      → ctx.pcr_pid ≢ 0
      → OnSome lib
          (λ after. Passed lib filter pmt (sent reads) after.written)
          (thread_packet_rx lib ctx reads)
  thread-Passed reads ctx same_filter same_pmt has nil unwritten none_yet known =
      OnSome-map (Relays ctx (sent reads))
        (λ after. Passed lib filter pmt (sent reads) after.written) (thread_packet_rx lib ctx reads)
        (λ after (safe, known_after, (qs, w, passed)).
          subst (Passed lib filter pmt (sent reads)) (sym (w ∙ ap (λ l. l ++ qs) unwritten)) passed)
        (thread-Relays_from reads ctx (same_filter, same_pmt, has, inl nil, rw unwritten tt)
          (none_yet, known))
