-- ===== src/Forwarding/Sessions.antt =====
-- Sessions of forwarding: what is safe, and the histories that fault.
use ltntstools.Base.{
  ℕ, ◌<◌, ◌≡◌, refl, sym, ap, ◌∙◌, Bool, true, false, not, none, some, List, [], ◌∷◌, arith,
  Bool-cases, inl, inr,
}
use ltntstools.Item.{Flag, DiscoveredItem, is_set}
use ltntstools.Item.Flags.{same}
use ltntstools.Selection.{forward_toggle, abort}
use ltntstools.Forwarding.Flags.{
  clear_flags_lem, start_flags_lem, is_set-forward_toggle, slot-forward_toggle, toggle_lem,
  abort_lem,
}
use ltntstools.Forwarding.{
  Handle, null, opened, closed, Forwarder, close, clear_flags, stop, start_flags, in_table, start,
  forward, process, Event, toggled, aborted, packet, step, run,
}

abbrev pub is_open : Handle → Bool
is_open null = false
is_open opened = true
is_open closed = false

-- Nothing is asked for, and the output is open if and only if the stream is being forwarded.
pub record IsSettled (f : Forwarder) : Type 0 where
  pub no_start : is_set f.item Flag.stream_forward_start ≡ false
  pub no_stop : is_set f.item Flag.stream_forward_stop ≡ false
  pub open_iff : is_set f.item Flag.stream_forwarding ≡ is_open f.handle

-- A packet on a settled stream changes nothing.
packet_settled :
    (size : ℕ) (open_ok : Bool) (f : Forwarder) → IsSettled f → process size open_ok f ≡ some f
unfolding process stop start forward
packet_settled size open_ok f s = ground (arith, s.no_start, s.no_stop, s.open_iff)

-- A packet after a stop was asked for closes the output.
packet_stops :
    (size : ℕ) (open_ok : Bool) (f : Forwarder)
    → is_set f.item Flag.stream_forward_stop ≡ true
    → f.handle ≡ opened
    → process size open_ok f ≡ some (record { item = clear_flags f.item; handle = closed })
unfolding process stop start forward close
packet_stops size open_ok f asked is_opened =
    let (a, b, c) = clear_flags_lem f.item in ground (arith, a, b, c)

-- A packet after a start was asked for opens the output.
packet_starts :
    (size : ℕ) (f : Forwarder)
    → is_set f.item Flag.stream_forward_start ≡ true
    → is_set f.item Flag.stream_forward_stop ≡ false
    → in_table size f.item.forward_slot_nr ≡ true
    → process size true f ≡ some (record { item = start_flags f.item; handle = opened })
unfolding process stop start forward
packet_starts size f asked going inside =
    let (a, b, c) = start_flags_lem f.item in ground (arith, a, b, c)

-- The output opens, and each key is followed by a packet.
pub data Calm (size : ℕ) : List Event → Type 0 where
  over : Calm size []
  passing : {es : List Event} (open_ok : Bool) → Calm size es → Calm size (packet open_ok ∷ es)
  switching :
      {es : List Event} (slot : ℕ)
      → in_table size slot ≡ true
      → Calm size es
      → Calm size (toggled slot ∷ packet true ∷ es)
  stopping :
      {es : List Event} (open_ok : Bool) → Calm size es → Calm size (aborted ∷ packet open_ok ∷ es)

cleared-IsSettled :
    (e : DiscoveredItem) → IsSettled (record { item = clear_flags e; handle = closed })
cleared-IsSettled e =
    let (a, b, c) = clear_flags_lem e in record { no_start = b; no_stop = c; open_iff = a }

started-IsSettled :
    (e : DiscoveredItem)
    → is_set e Flag.stream_forward_stop ≡ false
    → IsSettled (record { item = start_flags e; handle = opened })
started-IsSettled e going =
    let (a, b, c) = start_flags_lem e in record { no_start = b; no_stop = c ∙ going; open_iff = a }

open-opened : (h : Handle) → is_open h ≡ true → h ≡ opened
open-opened null e = absurd (ground (arith, e))
open-opened opened e = refl
open-opened closed e = absurd (ground (arith, e))

switch_lem :
    (size slot : ℕ) (f : Forwarder)
    → in_table size slot ≡ true
    → IsSettled f
    → (g : Forwarder) × (process size true (record f { item = forward_toggle slot f.item })
        ≡ some g)
      × IsSettled g
switch_lem size slot f inside s =
    let (same_on, stop_on, start_on) = toggle_lem slot f.item s.no_start s.no_stop in
    elim (Bool-cases (is_set f.item Flag.stream_forwarding)) [
      | inl on ↦ (
        record { item = clear_flags (forward_toggle slot f.item); handle = closed },
        packet_stops size true (record f { item = forward_toggle slot f.item }) (stop_on ∙ on)
            (open-opened f.handle (sym s.open_iff ∙ on)),
        cleared-IsSettled _,
      )
      | inr off ↦ (
        record { item = start_flags (forward_toggle slot f.item); handle = opened },
        packet_starts size (record f { item = forward_toggle slot f.item }) (start_on ∙ ap not off)
            (stop_on ∙ off)
            (ap (in_table size) (slot-forward_toggle slot f.item ∙ ground arith) ∙ inside),
        started-IsSettled (forward_toggle slot f.item) (stop_on ∙ off),
      )
    ]

stop_lem :
    (size : ℕ) (open_ok : Bool) (f : Forwarder)
    → IsSettled f
    → (g : Forwarder) × (process size open_ok (record f { item = abort f.item }) ≡ some g)
      × IsSettled g
stop_lem size open_ok f s =
    let (same_on, stop_on, start_on) = abort_lem f.item s.no_start s.no_stop in
    elim (Bool-cases (is_set f.item Flag.stream_forwarding)) [
      | inl on ↦ (
        record { item = clear_flags (abort f.item); handle = closed },
        packet_stops size open_ok (record f { item = abort f.item }) (stop_on ∙ on)
            (open-opened f.handle (sym s.open_iff ∙ on)),
        cleared-IsSettled _,
      )
      | inr off ↦
          let aborted_settled : IsSettled (record f { item = abort f.item }) = record {
            no_start = start_on;
            no_stop = stop_on ∙ off;
            open_iff = same_on ∙ s.open_iff;
          } in
          (
            record f { item = abort f.item },
            packet_settled size open_ok _ aborted_settled,
            aborted_settled,
          )
    ]

-- In a history in which the output opens, the keys name targets of the table, and each key is
-- followed by a packet before the next one, nothing faults; at the end the output is open if and
-- only if the stream is being forwarded.
pub run-IsSettled :
    (size : ℕ) (es : List Event) (f : Forwarder)
    → Calm size es
    → IsSettled f
    → (g : Forwarder) × (run size f es ≡ some g) × IsSettled g
unfolding run step
run-IsSettled size _ f over s = (f, refl, s)
run-IsSettled size _ f (passing {es} b calm) s =
    let (g, done, t) = run-IsSettled size es f calm s in
    (g, rw (packet_settled size b f s, run) done, t)
run-IsSettled size _ f (switching {es} slot inside calm) s =
    let (g, here, t) = switch_lem size slot f inside s in
    let (h, done, u) = run-IsSettled size es g calm t in (h, rw (here, run) done, u)
run-IsSettled size _ f (stopping {es} b calm) s =
    let (g, here, t) = stop_lem size b f s in
    let (h, done, u) = run-IsSettled size es g calm t in (h, rw (here, run) done, u)

module _ (size : ℕ) (f : Forwarder) (s : IsSettled f)
    (off : is_set f.item Flag.stream_forwarding ≡ false) where
  -- Where a stream is not being forwarded, the key of a slot whose target lies outside the table,
  -- as it does for the slots 8 and 9, faults at the next packet.
  pub start_outside :
      (slot : ℕ) (open_ok : Bool)
      → in_table size slot ≡ false
      → run size f (toggled slot ∷ packet open_ok ∷ []) ≡ none
  unfolding run step process stop start
  start_outside slot open_ok outside =
      let (same_on, stop_on, start_on) = toggle_lem slot f.item s.no_start s.no_stop in
      ground (arith, stop_on, start_on, off, slot-forward_toggle slot f.item, s.no_start, outside)

  -- Where a stream is not being forwarded and the output does not open, the first packet is written through a NULL handle.
  pub start_unopened :
      (slot : ℕ) → in_table size slot ≡ true → run size f (toggled slot ∷ packet false ∷ []) ≡ none
  unfolding run step process stop start forward
  start_unopened slot inside =
      let (same_on, stop_on, start_on) = toggle_lem slot f.item s.no_start s.no_stop in
      let (a, b, c) = start_flags_lem (forward_toggle slot f.item) in
      ground (arith, stop_on, start_on, off, slot-forward_toggle slot f.item, s.no_start, inside, a)

  -- After an earlier session, a key that is pressed twice between two packets closes the output a
  -- second time.
  pub closes_twice :
      (slot other : ℕ) (open_ok : Bool)
      → f.handle ≡ closed
      → run size f (toggled slot ∷ toggled other ∷ packet open_ok ∷ []) ≡ none
  unfolding run step process stop close same
  closes_twice slot other open_ok h =
      let (same_on, stop_on, start_on) = toggle_lem slot f.item s.no_start s.no_stop in
      ground (
        arith,
        start_on,
        off,
        h,
        is_set-forward_toggle other (forward_toggle slot f.item) Flag.stream_forward_stop,
      )

-- Slots 8 and 9 lie outside a table of any size.
pub in_table_outside : (size slot : ℕ) → 7 < slot → in_table size slot ≡ false
unfolding in_table
in_table_outside size slot h = ground (arith, h)
