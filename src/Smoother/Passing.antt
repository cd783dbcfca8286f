-- ===== src/Smoother/Passing.antt =====
-- What passes the filter, packet by packet.
use ltntstools.Base.{
  ◌≡◌, ◌≢◌, refl, sym, ap, ◌∙◌, inl, inr, ◌⊎◌, ℕ, Bool, true, false, not, ◌&&◌, List, [], ◌∷◌,
  arith, ◌==◌, ==_iff, if◌then◌else◌, All, subst, Bool-cases, Option-cases, set,
}
use ltntstools.Smoother.{
  Packet, Library, Context, byte, patched, remove_blocked, make_pmt, filter_packet, filter_packets,
}

-- What the code relies on in libltntools: a null packet has the PID of null packets, a PMT is
-- made for its PID, and the PID stands in other bytes than the fourth.
pub record Laws (lib : Library) : Type 0 where
  pub pid-null : (p : Packet) → lib.pid (lib.null_packet p) ≡ 0x1fff
  pub pid-create :
      (t : lib.Pmt) (k cc : ℕ) (p : Packet)
      → byte p 0 ≢ 0x47
      → byte (lib.create_packet t k cc p) 0 ≡ 0x47
      → lib.pid (lib.create_packet t k cc p) ≡ k
  pub pid-set : (p : Packet) (v : ℕ) → lib.pid (set p 3 v) ≡ lib.pid p

pub ==_false : (a b : ℕ) → (a == b) ≡ false → a ≢ b
==_false a b h e = ground arith

pub and_true : (a b : Bool) → (a && b) ≡ true → (a ≡ true) × (b ≡ true)
and_true true true h = (refl, refl)
and_true true false h = cc
and_true false b h = cc

module _ (lib : Library) where
  -- Once made, the PMT has its PID.
  abbrev pub HasPmt : Context lib → Type 0
  HasPmt ctx = byte ctx.spts_pmt_pkt_new 0 ≡ 0x47 → lib.pid ctx.spts_pmt_pkt_new ≡ ctx.spts_pmt_pid

  -- Nothing blocked: the PID passes, or is that of null packets or of the PMT.
  abbrev pub IsClean : (ℕ → Bool) → ℕ → Packet → Type 0
  IsClean filter pmt p = (filter (lib.pid p) ≡ true) ⊎ (lib.pid p ≡ 0x1fff) ⊎ (lib.pid p ≡ pmt)

  -- Only the PMT and its model change.
  abbrev pub Keeps : Context lib → Context lib → Type 0
  Keeps ctx after =
      after
      ≡ record ctx { spts_pmt_sm = after.spts_pmt_sm; spts_pmt_pkt_new = after.spts_pmt_pkt_new }

  -- Packet by packet, a blocked packet is null and one that passes is as it was, but for the PMT.
  abbrev pub Passed : (ℕ → Bool) → ℕ → List Packet → List Packet → Type 0
  Passed filter pmt [] [] = Unit
  Passed filter pmt [] (q ∷ qs) = ⊥
  Passed filter pmt (p ∷ ps) [] = ⊥
  Passed filter pmt (p ∷ ps) (q ∷ qs) =
      (lib.pid p ≢ pmt → q ≡ (if filter (lib.pid p) then p else lib.null_packet p))
      × Passed filter pmt ps qs

  abbrev blanked : Context lib → Packet → Packet
  blanked ctx p = if ctx.filter (lib.pid p) then p else lib.null_packet p

  pub Keeps-trans : (a b c : Context lib) → Keeps a b → Keeps b c → Keeps a c
  Keeps-trans a b c ab bc =
      bc
      ∙ ap
          (λ (d : Context lib). record d {
            spts_pmt_sm = c.spts_pmt_sm;
            spts_pmt_pkt_new = c.spts_pmt_pkt_new;
          })
          ab

module _ (lib : Library) (laws : Laws lib) where
  make_pmt-Keeps :
      (ctx : Context lib) (p : Packet)
      → HasPmt lib ctx
      → Keeps lib ctx (make_pmt lib ctx p) × HasPmt lib (make_pmt lib ctx p)
  unfolding make_pmt
  make_pmt-Keeps ctx p has = elim (Option-cases ctx.spts_pmt_sm) [
    | inl h ↦ rw (h, make_pmt) (refl, has)
    | inr (model, h) ↦ elim (Bool-cases (byte ctx.spts_pmt_pkt_new 0 == 0x47)) [
      | inl made ↦ rw (h, made, make_pmt) (refl, has)
      | inr new ↦ elim (Option-cases (lib.enum_services model ctx.spts_pmt_pid)) [
        | inl e ↦ rw (h, new, e, make_pmt) (refl, has)
        | inr (found, e) ↦
            rw (h, new, e, make_pmt)
              (
                refl,
                laws.pid-create (remove_blocked lib ctx.filter 0 0x2000 found) ctx.spts_pmt_pid
                    (lib.continuity_counter p) ctx.spts_pmt_pkt_new
                    (==_false (byte ctx.spts_pmt_pkt_new 0) 0x47 new),
              )
      ]
    ]
  ]

  blanked-IsClean :
      (ctx : Context lib) (p : Packet) → IsClean lib ctx.filter ctx.spts_pmt_pid (blanked lib ctx p)
  blanked-IsClean ctx p = elim (Bool-cases (ctx.filter (lib.pid p))) [
    | inl pass ↦ rw pass (inl pass)
    | inr block ↦ rw block (inr (inl (laws.pid-null p)))
  ]

  -- On one packet: the output is clean, and other packets than the PMT pass or are made null.
  filter_packet-IsClean :
      (ctx : Context lib) (p : Packet)
      → HasPmt lib ctx
      → let (after, q) = filter_packet lib ctx p in
        Keeps lib ctx after
        × HasPmt lib after
        × IsClean lib ctx.filter ctx.spts_pmt_pid q
        × (lib.pid p ≢ ctx.spts_pmt_pid → q ≡ blanked lib ctx p)
  unfolding filter_packet
  filter_packet-IsClean ctx p has =
      let set_pmt : Bool = not (ctx.spts_pmt_pid == 0) in
      let on_pmt : Bool = ctx.spts_pmt_pid == lib.pid p in
      let made : Bool = byte ctx.spts_pmt_pkt_new 0 == 0x47 in
      elim (Bool-cases (set_pmt && (on_pmt && made))) [
        | inl patch ↦
            let v = patched (byte ctx.spts_pmt_pkt_new 3) (byte (blanked lib ctx p) 3) in
            let (on, made_so) = and_true on_pmt made (and_true set_pmt (on_pmt && made) patch).1 in
            let mine =
              laws.pid-set ctx.spts_pmt_pkt_new v
              ∙ has ((==_iff (byte ctx.spts_pmt_pkt_new 0) 0x47).0 made_so) in
            rw patch (
              refl,
              λ e. mine,
              inr (inr mine),
              λ ne. absurd (ne (sym ((==_iff ctx.spts_pmt_pid (lib.pid p)).0 on))),
            )
        | inr other ↦ elim (Bool-cases (set_pmt && on_pmt)) [
          | inl create ↦
              let (keeps, has_after) = make_pmt-Keeps ctx (blanked lib ctx p) has in
              rw (other, create) (keeps, has_after, blanked-IsClean ctx p, λ ne. refl)
          | inr plain ↦ rw (other, plain) (refl, has, blanked-IsClean ctx p, λ ne. refl)
        ]
      ]

  pub filter_packets-IsClean :
      (ps : List Packet) (ctx : Context lib)
      → HasPmt lib ctx
      → let (after, qs) = filter_packets lib ctx ps in
        Keeps lib ctx after
        × HasPmt lib after
        × All (IsClean lib ctx.filter ctx.spts_pmt_pid) qs
        × Passed lib ctx.filter ctx.spts_pmt_pid ps qs
  unfolding filter_packets
  filter_packets-IsClean [] ctx has = (refl, has, tt, tt)
  filter_packets-IsClean (p ∷ ps) ctx has =
      let (keeps, has_one, clean, pass) = filter_packet-IsClean ctx p has in
      let one = (filter_packet lib ctx p).0 in
      let (keeps_rest, has_rest, clean_rest, pass_rest) = filter_packets-IsClean ps one has_one in
      let (last, qs) = filter_packets lib one ps in
      (
        Keeps-trans lib ctx one last keeps keeps_rest,
        has_rest,
        (
          clean,
          subst (λ (c : Context lib). All (IsClean lib c.filter c.spts_pmt_pid) qs) keeps
              clean_rest,
        ),
        (
          pass,
          subst (λ (c : Context lib). Passed lib c.filter c.spts_pmt_pid ps qs) keeps pass_rest,
        ),
      )
