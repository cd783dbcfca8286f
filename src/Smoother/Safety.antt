-- ===== src/Smoother/Safety.antt =====
-- What the thread hands to the smoother, and that there is one smoother at most.
use ltntstools.Base.{
  ◌≡◌, ◌≢◌, refl, sym, ap, subst, ◌∙◌, inl, inr, ◌⊎◌, ℕ, ◌+◌, Bool, true, false, not, ◌&&◌, Option,
  none, some, List, [], ◌∷◌, ◌++◌, arith, ◌==◌, ==_iff, leb, if◌then◌else◌, All, All-append,
  Bool-cases, Option-cases,
}
use mathlib.Core.List.{append-nil}
use ltntstools.Smoother.{
  Packet, Library, Context, Read, again, ended, empty, packets, is_nil, filter_packets,
  smoother_pcr_alloc, allocate, use_model, after_write, write_model, hand_on, receive, hear, round,
  byte, thread_packet_rx,
}
use ltntstools.Smoother.Passing.{Laws, HasPmt, IsClean, filter_packets-IsClean, ==_false, and_true}

added-All :
    (P : Packet → Type 0) (b : Bool) (ps : List Packet) → All P ps → All P (if b then [] else ps)
added-All P true ps all = tt
added-All P false ps all = all

module _ (lib : Library) where
  -- No smoother, or one, for the PCR PID that is known.
  abbrev pub HasOne : Context lib → Type 0
  HasOne ctx = (ctx.smoothers ≡ []) ⊎ ((ctx.smoothers ≡ ctx.pcr_pid ∷ []) × (ctx.pcr_pid ≢ 0))

  -- The filter, the PMT and what was written stay.
  abbrev SameOutput : Context lib → Context lib → Type 0
  SameOutput ctx after =
      (after.filter ≡ ctx.filter)
      × (after.spts_pmt_pid ≡ ctx.spts_pmt_pid)
      × (after.spts_pmt_pkt_new ≡ ctx.spts_pmt_pkt_new)
      × (after.written ≡ ctx.written)

  is_nil-HasOne :
      (ctx : Context lib) → HasOne ctx → is_nil ctx.smoothers ≡ true → ctx.smoothers ≡ []
  is_nil-HasOne ctx (inl e) h = e
  is_nil-HasOne ctx (inr (e, ne)) h = cc (rw e at h)

  -- Of the context, where the process goes on.
  abbrev pub OnSome : (Context lib → Type 0) → Option (Context lib) → Type 0
  OnSome P none = Unit
  OnSome P (some ctx) = P ctx

  allocate-HasOne :
      (ctx : Context lib)
      → HasOne ctx
      → OnSome (λ after. HasOne after × SameOutput ctx after) (allocate lib ctx)
  unfolding allocate smoother_pcr_alloc
  allocate-HasOne ctx one = elim (Option-cases ctx.sm) [
    | inr (s, e) ↦ rw (e, allocate) (one, (refl, refl, refl, refl))
    | inl e ↦ elim (Bool-cases (ctx.pcr_pid == 0)) [
      | inl unknown ↦ elim (Option-cases lib.streammodel_alloc) [
        | inl failed ↦ rw (e, unknown, failed, allocate) tt
        | inr (s, made) ↦ rw (e, unknown, made, allocate) (one, (refl, refl, refl, refl))
      ]
      | inr known ↦ elim (Bool-cases (is_nil ctx.smoothers)) [
        | inl nil ↦
            rw (e, known, nil, allocate)
              (
                inr (
                  ap (λ l. ctx.pcr_pid ∷ l) (is_nil-HasOne ctx one nil),
                  ==_false ctx.pcr_pid 0 known,
                ),
                (refl, refl, refl, refl),
              )
        | inr has ↦ rw (e, known, has, allocate) (one, (refl, refl, refl, refl))
      ]
    ]
  ]

  use_model-HasOne :
      (ctx : Context lib) (pat : lib.Model)
      → ctx.smoothers ≡ []
      → HasOne (use_model lib ctx pat) × SameOutput ctx (use_model lib ctx pat)
  unfolding use_model smoother_pcr_alloc
  use_model-HasOne ctx pat nil =
      let pcr : ℕ = elim (lib.video_pcr_pid pat) [ none ↦ ctx.pcr_pid | some k ↦ k ] in
      elim (Bool-cases (pcr == 0)) [
        | inl unknown ↦ rw unknown (inl nil, (refl, refl, refl, refl))
        | inr known ↦
            rw known (inr (ap (λ l. pcr ∷ l) nil, ==_false pcr 0 known), (refl, refl, refl, refl))
      ]

  after_write-HasOne :
      (ctx : Context lib) (wrote : lib.Stream × Bool)
      → ctx.smoothers ≡ []
      → HasOne (after_write lib ctx wrote) × SameOutput ctx (after_write lib ctx wrote)
  unfolding after_write
  after_write-HasOne ctx (s, false) nil = (inl nil, (refl, refl, refl, refl))
  after_write-HasOne ctx (s, true) nil = elim (Option-cases (lib.query_model s)) [
    | inl e ↦ rw (e, after_write) (inl nil, (refl, refl, refl, refl))
    | inr (pat, e) ↦
        rw (e, after_write)
          (use_model-HasOne (record ctx { sm = some s; smcomplete = true }) pat nil)
  ]

  unknown_pcr-nil : (ctx : Context lib) → HasOne ctx → ctx.pcr_pid ≡ 0 → ctx.smoothers ≡ []
  unknown_pcr-nil ctx (inl nil) h = nil
  unknown_pcr-nil ctx (inr (e, ne)) h = absurd (ne h)

  write_model-HasOne :
      (ctx : Context lib) (ps : List Packet)
      → HasOne ctx
      → HasOne (write_model lib ctx ps) × SameOutput ctx (write_model lib ctx ps)
  unfolding write_model
  write_model-HasOne ctx ps one = elim (Option-cases ctx.sm) [
    | inl e ↦ rw (e, write_model) (one, (refl, refl, refl, refl))
    | inr (s, e) ↦ elim (Bool-cases (not ctx.smcomplete && ctx.pcr_pid == 0)) [
      | inr no_need ↦ rw (e, no_need, write_model) (one, (refl, refl, refl, refl))
      | inl incomplete ↦
          let unknown =
            (==_iff ctx.pcr_pid 0).0
              (and_true (not ctx.smcomplete) (ctx.pcr_pid == 0) incomplete).1 in
          rw (e, incomplete, write_model)
            (after_write-HasOne ctx (lib.streammodel_write s ps) (unknown_pcr-nil ctx one unknown))
    ]
  ]

  -- With the PCR PID of the option -P there is a smoother before the first write.
  abbrev pub IsKnown : Context lib → Type 0
  IsKnown ctx = (ctx.sm ≡ none) × (ctx.pcr_pid ≢ 0)

  allocate-IsKnown :
      (ctx : Context lib)
      → IsKnown ctx
      → OnSome (λ after. IsKnown after × (is_nil after.smoothers ≡ false)) (allocate lib ctx)
  unfolding allocate smoother_pcr_alloc
  allocate-IsKnown ctx (none_yet, ne) = elim (Bool-cases (ctx.pcr_pid == 0)) [
    | inl unknown ↦ absurd (ne ((==_iff ctx.pcr_pid 0).0 unknown))
    | inr known ↦ elim (Bool-cases (is_nil ctx.smoothers)) [
      | inl nil ↦ rw (none_yet, known, nil, allocate) ((none_yet, ne), refl)
      | inr has ↦ rw (none_yet, known, has, allocate) ((none_yet, ne), has)
    ]
  ]

  write_model-known :
      (ctx : Context lib) (ps : List Packet) → IsKnown ctx → write_model lib ctx ps ≡ ctx
  unfolding write_model
  write_model-known ctx ps (none_yet, ne) = ground arith

  -- What one buffer changes: the packets are written where there is a smoother.
  abbrev pub Handed : Context lib → List Packet → Context lib → Type 0
  Handed ctx buf after =
      let (filtered, ps) = filter_packets lib ctx buf in
      (after.filter ≡ filtered.filter)
      × (after.spts_pmt_pid ≡ filtered.spts_pmt_pid)
      × (after.spts_pmt_pkt_new ≡ filtered.spts_pmt_pkt_new)
      × HasOne after
      × (after.written ≡ filtered.written ++ (if is_nil after.smoothers then [] else ps))
      × (IsKnown filtered → IsKnown after × (is_nil after.smoothers ≡ false))

  hand_on-written :
      (ctx : Context lib) (ps : List Packet)
      → hand_on lib ctx ps
        ≡ record ctx { written = ctx.written ++ (if is_nil ctx.smoothers then [] else ps) }
  unfolding hand_on
  hand_on-written ctx ps = elim (Bool-cases (is_nil ctx.smoothers)) [
    | inl nil ↦ rw (nil, append-nil ctx.written) refl
    | inr has ↦ rw has refl
  ]

  pub receive-Handed :
      (ctx : Context lib) (buf : List Packet)
      → HasOne (filter_packets lib ctx buf).0
      → OnSome (Handed ctx buf) (receive lib ctx buf)
  unfolding receive
  receive-Handed ctx buf one =
      let (filtered, ps) = filter_packets lib ctx buf in
      elim (Option-cases (allocate lib filtered)) [
        | inl e ↦ rw (e, receive) tt
        | inr (ready, e) ↦
            let (one_ready, same) =
              subst (OnSome (λ a. HasOne a × SameOutput filtered a)) e
                (allocate-HasOne filtered one) in
            let (one_model, same_model) = write_model-HasOne ready ps one_ready in
            let (f, p, n, w) = same in
            let (f', p', n', w') = same_model in
            rw (e, receive, hand_on-written)
              (
                f' ∙ f,
                p' ∙ p,
                n' ∙ n,
                one_model,
                ap (λ l. l ++ (if is_nil (write_model lib ready ps).smoothers then [] else ps))
                    (w' ∙ w),
                λ known.
                    let (still, has) =
                      subst (OnSome (λ a. IsKnown a × (is_nil a.smoothers ≡ false))) e
                        (allocate-IsKnown filtered known) in
                    let kept = sym (write_model-known ready ps still) in
                    (
                      subst IsKnown kept still,
                      subst (λ (c : Context lib). is_nil c.smoothers ≡ false) kept has,
                    ),
              )
      ]

  module _ (laws : Laws lib) (filter : ℕ → Bool) (pmt : ℕ) where
    -- All that is written is clean, by the filter and the PMT PID of the options.
    abbrev pub IsSafe : Context lib → Type 0
    IsSafe ctx =
        (ctx.filter ≡ filter)
        × (ctx.spts_pmt_pid ≡ pmt)
        × HasPmt lib ctx
        × HasOne ctx
        × All (IsClean lib filter pmt) ctx.written

    pub receive-IsSafe :
        (ctx : Context lib) (buf : List Packet) → IsSafe ctx → OnSome IsSafe (receive lib ctx buf)
    receive-IsSafe ctx buf (same_filter, same_pmt, has, one, clean) =
        let (keeps, has_after, all_clean, passed) = filter_packets-IsClean lib laws buf ctx has in
        let handed = receive-Handed ctx buf (subst HasOne (sym keeps) one) in
        elim (Option-cases (receive lib ctx buf)) [
          | inl e ↦ rw e tt
          | inr (after, e) ↦
              let (f, p, n, one_after, w, known) = subst (OnSome (Handed ctx buf)) e handed in
              let same_f = f ∙ ap (λ (c : Context lib). c.filter) keeps in
              let same_p = p ∙ ap (λ (c : Context lib). c.spts_pmt_pid) keeps in
              let ps = (filter_packets lib ctx buf).1 in
              let clean_ps =
                subst (λ k. All (IsClean lib filter k) ps) same_pmt
                  (subst (λ g. All (IsClean lib g ctx.spts_pmt_pid) ps) same_filter all_clean) in
              let added = if is_nil after.smoothers then [] else ps in
              rw e (
                same_f ∙ same_filter,
                same_p ∙ same_pmt,
                λ b. ap lib.pid n ∙ has_after (ap (λ q. byte q 0) (sym n) ∙ b) ∙ sym p,
                one_after,
                subst (All (IsClean lib filter pmt))
                    (sym (w ∙ ap (λ (c : Context lib). c.written ++ added) keeps))
                    (All-append (IsClean lib filter pmt) ctx.written added clean
                      (added-All (IsClean lib filter pmt) (is_nil after.smoothers) ps clean_ps)),
              )
        ]

    pub hear-IsSafe :
        (ctx : Context lib) (read : Read) → IsSafe ctx → OnSome IsSafe (hear lib ctx read)
    unfolding hear
    hear-IsSafe ctx again safe = safe
    hear-IsSafe ctx ended safe = safe
    hear-IsSafe ctx empty safe = safe
    hear-IsSafe ctx (packets buf) safe = receive-IsSafe ctx buf safe

    round-IsSafe :
        (ctx : Context lib) (read : Read) (time : ℕ)
        → IsSafe ctx
        → OnSome IsSafe (round lib ctx read time)
    unfolding round
    round-IsSafe ctx read time safe =
        elim (Bool-cases (
          not (ctx.terminate_los_seconds == 0)
          && leb (ctx.last_packet_time + ctx.terminate_los_seconds) ctx.now)) [
            | inl lost ↦ rw lost tt
            | inr fed ↦ rw fed (hear-IsSafe (record ctx { now = time }) read safe)
          ]

    thread-IsSafe_from :
        (reads : List (Read × ℕ)) (ctx : Context lib)
        → IsSafe ctx
        → OnSome IsSafe (thread_packet_rx lib ctx reads)
    unfolding thread_packet_rx
    thread-IsSafe_from [] ctx safe = safe
    thread-IsSafe_from ((read, time) ∷ reads) ctx safe =
        elim (Option-cases (round lib ctx read time)) [
          | inl e ↦ rw (e, thread_packet_rx) tt
          | inr (after, e) ↦
              rw (e, thread_packet_rx)
                (thread-IsSafe_from reads after
                  (subst (OnSome IsSafe) e (round-IsSafe ctx read time safe)))
        ]

    -- From a start with no smoother, no PMT made and nothing written, after any reads that do not end
    -- the process: there is no smoother or one, made for the PCR PID that is known, and each packet
    -- handed to it passes the filter, is a null packet, or is on the PID of the PMT.
    pub thread-IsSafe :
        (reads : List (Read × ℕ)) (ctx : Context lib)
        → ctx.filter ≡ filter
        → ctx.spts_pmt_pid ≡ pmt
        → HasPmt lib ctx
        → ctx.smoothers ≡ []
        → ctx.written ≡ []
        → OnSome IsSafe (thread_packet_rx lib ctx reads)
    thread-IsSafe reads ctx same_filter same_pmt has nil unwritten =
        thread-IsSafe_from reads ctx (same_filter, same_pmt, has, inl nil, rw unwritten tt)
