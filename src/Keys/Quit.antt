-- ===== src/Keys/Quit.antt =====
-- How the loop ends, and what the end of the program asks of every stream.
use ltntstools.Base.{
  ◌≡◌, ◌≢◌, refl, ap, ℕ, ◌+◌, true, not, ◌||◌, List, [], ◌∷◌, ◌++◌, map, some, arith, ◌==◌,
  if◌then◌else◌, All, Bool-cases, inl, inr, ◌⊎◌,
}
use ltntstools.Document.{Line}
use ltntstools.Item.{Flag, DiscoveredItem, is_set}
use ltntstools.Item.Flags.{is_set-state_set, same}
use ltntstools.Keys.{
  Context, Reading, Place, menu_key, handle, leave_menu, step, run, finish, session, on_items,
}
use ltntstools.Keys.Steady.{Steady-abort}
use ltntstools.Keys.Rows.{Rows, Rows-trans, Rows-map}
use ltntstools.Selection.{turn_on, abort, abort_all}
use ltntstools.Keys.Session.{step-Kept, run-Kept, run-Rows}

-- A reading of 'q' that the second of the automatic reset does not replace.
abbrev pub IsQuit : Reading → Context → Type 0
IsQuit r x = (r.c ≡ b'q') × (x.start_time + 2 ≢ r.now)

-- The stops that the end of the program asks for.
abbrev pub AsksToStop : DiscoveredItem → Type 0
AsksToStop e =
    ((not (is_set e Flag.pcap_recording || is_set e Flag.pcap_record_start)
        || is_set e Flag.pcap_record_stop)
      ≡ true)
    × ((not (is_set e Flag.stream_forwarding || is_set e Flag.stream_forward_start)
          || is_set e Flag.stream_forward_stop)
        ≡ true)

module _ (stamp : ℕ → Line) (message : Line) where
  run-append :
      (p : Place) (rs qs : List Reading) (x : Context)
      → run stamp message p (rs ++ qs) x
        ≡ run stamp message (run stamp message p rs x).0 qs (run stamp message p rs x).1
  unfolding run
  run-append p [] qs x = refl
  run-append p (r ∷ rs) qs x =
      let next : Place × Context = step stamp message p r x in run-append next.0 rs qs next.1

  -- What the loop handles is the 'q'.
  quit_char :
      (r : Reading) (x : Context)
      → IsQuit r x
      → (if x.start_time + 2 == r.now then b'r' else r.c) ≡ b'q'
  quit_char r x h = ground arith

  top_quits :
      (r : Reading) (x : Context)
      → IsQuit r x
      → (step stamp message Place.at_top r x).0 ≡ Place.ended
  unfolding step handle
  top_quits r x h = elim (Bool-cases r.running) [
    | inl e ↦ rw e (ap (λ c. (handle stamp message c r x).0) (quit_char r x h))
    | inr e ↦ rw e refl
  ]

  -- From any place the first 'q' leaves the loop or leads to its top.
  first_quit :
      (p : Place) (r : Reading) (x : Context)
      → IsQuit r x
      → ((step stamp message p r x).0 ≡ Place.ended) ⊎ ((step stamp message p r x).0 ≡ Place.at_top)
  unfolding step
  first_quit Place.at_top r x h = inl (top_quits r x h)
  first_quit Place.in_menu r x h = elim (Bool-cases r.running) [
    | inl e ↦ inr (rw (e, h.0) (unfold leave_menu menu_key in refl))
    | inr e ↦ inl (rw e refl)
  ]
  first_quit Place.after_escape r x h = inr (rw h.0 refl)
  first_quit Place.after_bracket r x h = inr refl
  first_quit Place.ended r x h = inl refl

  two_quits :
      (p : Place) (q q' : Reading) (x : Context)
      → IsQuit q x
      → IsQuit q' x
      → (run stamp message p (q ∷ q' ∷ []) x).0 ≡ Place.ended
  unfolding run
  two_quits p q q' x h h' =
      let y : Context = (step stamp message p q x).1 in
      elim (first_quit p q x h) [
        | inl e ↦ rw e (unfold step in refl)
        | inr e ↦ rw e (top_quits q' y (h'.0, rw (step-Kept stamp message p q x).1 h'.1))
      ]

  -- After any keys, and wherever they have led, two 'q' end the loop, unless one of them is read in
  -- the second of the automatic reset.
  pub two_quits_end :
      (p : Place) (rs : List Reading) (q q' : Reading) (x : Context)
      → IsQuit q x
      → IsQuit q' x
      → (run stamp message p (rs ++ q ∷ q' ∷ []) x).0 ≡ Place.ended
  two_quits_end p rs q q' x h h' =
      let mid : Place × Context = run stamp message p rs x in
      let same_start : mid.1.start_time ≡ x.start_time = (run-Kept stamp message p rs x).1 in
      rw (run-append p rs (q ∷ q' ∷ []) x)
        (two_quits mid.0 q q' mid.1 (h.0, rw same_start h.1) (h'.0, rw same_start h'.1))

  abort-AsksToStop : (e : DiscoveredItem) → AsksToStop (abort e)
  unfolding abort same
  abort-AsksToStop e =
      let stopped : DiscoveredItem = turn_on Flag.pcap_record_stop e in
      let on = λ (f g : Flag) (d : DiscoveredItem). is_set-state_set d f g in
      (
        ground (
          arith,
          on Flag.pcap_record_stop Flag.pcap_recording e,
          on Flag.pcap_record_stop Flag.pcap_record_start e,
          on Flag.pcap_record_stop Flag.pcap_record_stop e,
          on Flag.stream_forward_stop Flag.pcap_recording e,
          on Flag.stream_forward_stop Flag.pcap_record_start e,
          on Flag.stream_forward_stop Flag.pcap_record_stop e,
          on Flag.stream_forward_stop Flag.pcap_recording stopped,
          on Flag.stream_forward_stop Flag.pcap_record_start stopped,
          on Flag.stream_forward_stop Flag.pcap_record_stop stopped,
        ),
        ground (
          arith,
          on Flag.pcap_record_stop Flag.stream_forwarding e,
          on Flag.pcap_record_stop Flag.stream_forward_start e,
          on Flag.stream_forward_stop Flag.stream_forwarding e,
          on Flag.stream_forward_stop Flag.stream_forward_start e,
          on Flag.stream_forward_stop Flag.stream_forward_stop e,
          on Flag.stream_forward_stop Flag.stream_forwarding stopped,
          on Flag.stream_forward_stop Flag.stream_forward_start stopped,
          on Flag.stream_forward_stop Flag.stream_forward_stop stopped,
        ),
      )

  map-AsksToStop : (l : List DiscoveredItem) → All AsksToStop (map abort l)
  map-AsksToStop [] = tt
  map-AsksToStop (e ∷ l) = (abort-AsksToStop e, map-AsksToStop l)

  session_from :
      (p : Place) (x z y : Context)
      → Rows z.items x.items
      → finish stamp message p x ≡ some y
      → All AsksToStop y.items × Rows z.items y.items
  unfolding finish abort_all
  session_from Place.ended x z y k h =
      let last : y ≡ on_items abort_all x = ground arith in
      rw last (
        map-AsksToStop x.items,
        Rows-trans z.items x.items (map abort x.items) k (Rows-map abort Steady-abort x.items),
      )
  session_from Place.at_top x z y k h = absurd (cc)
  session_from Place.in_menu x z y k h = absurd (cc)
  session_from Place.after_escape x z y k h = absurd (cc)
  session_from Place.after_bracket x z y k h = absurd (cc)

  -- When the program ends, by any keys, each stream that is recorded or about to be is told to stop
  -- the recording, and each that is forwarded or about to be to stop the forwarding; and the streams
  -- are those of the start of the loop, with what the keys cannot change.
  pub session_stops :
      (rs : List Reading) (x y : Context)
      → session stamp message rs x ≡ some y
      → All AsksToStop y.items × Rows x.items y.items
  unfolding session
  session_stops rs x y h =
      let (p, z) = run stamp message Place.at_top rs x in
      session_from p z x y (run-Rows stamp message Place.at_top rs x) h
