-- ===== src/Forwarding/Flags.antt =====
-- What the keys and the two stages of the handler leave of the three flags of forwarding.
use ltntstools.Base.{ℕ, ◌≡◌, refl, true, false, not, ◌||◌, arith, if◌then◌else◌}
use ltntstools.Item.{Flag, DiscoveredItem, state_set, state_get, is_set}
use ltntstools.Item.Flags.{is_set-state_set, is_set-state_clr, same}
use ltntstools.Selection.{turn_on, forward_toggle, abort}
use ltntstools.Forwarding.{clear_flags, start_flags}

pub clear_flags_lem :
    (e : DiscoveredItem)
    → (is_set (clear_flags e) Flag.stream_forwarding ≡ false)
      × (is_set (clear_flags e) Flag.stream_forward_start ≡ false)
      × (is_set (clear_flags e) Flag.stream_forward_stop ≡ false)
unfolding clear_flags same
clear_flags_lem e = (simp is_set-state_clr, simp is_set-state_clr, simp is_set-state_clr)

pub start_flags_lem :
    (e : DiscoveredItem)
    → (is_set (start_flags e) Flag.stream_forwarding ≡ true)
      × (is_set (start_flags e) Flag.stream_forward_start ≡ false)
      × (is_set (start_flags e) Flag.stream_forward_stop ≡ is_set e Flag.stream_forward_stop)
unfolding start_flags same
start_flags_lem e = (
  simp (is_set-state_set, is_set-state_clr),
  simp (is_set-state_set, is_set-state_clr),
  simp (is_set-state_set, is_set-state_clr),
)

-- The flags do not depend on the slot.
pub is_set-slot :
    (e : DiscoveredItem) (n : ℕ) (g : Flag)
    → is_set (record e { forward_slot_nr = n }) g ≡ is_set e g
unfolding is_set state_get
is_set-slot e n g = refl

pub is_set-forward_toggle :
    (slot : ℕ) (e : DiscoveredItem) (g : Flag)
    → is_set (forward_toggle slot e) g ≡ (
        if is_set e Flag.stream_forwarding || is_set e Flag.stream_forward_start
        then same Flag.stream_forward_stop g || is_set e g
        else same Flag.stream_forward_start g || is_set e g)
unfolding forward_toggle
is_set-forward_toggle slot e g = ground (
  arith,
  is_set-slot (turn_on Flag.stream_forward_stop e) 0 g,
  is_set-slot e slot g,
  is_set-state_set e Flag.stream_forward_stop g,
  is_set-state_set (record e { forward_slot_nr = slot }) Flag.stream_forward_start g,
)

pub slot-forward_toggle :
    (slot : ℕ) (e : DiscoveredItem)
    → (forward_toggle slot e).forward_slot_nr
      ≡ (if is_set e Flag.stream_forwarding || is_set e Flag.stream_forward_start then 0 else slot)
unfolding forward_toggle state_set
slot-forward_toggle slot e = ground arith

-- The key asks for a stop of what is being forwarded, and for a start of what is not.
pub toggle_lem :
    (slot : ℕ) (e : DiscoveredItem)
    → is_set e Flag.stream_forward_start ≡ false
    → is_set e Flag.stream_forward_stop ≡ false
    → (is_set (forward_toggle slot e) Flag.stream_forwarding ≡ is_set e Flag.stream_forwarding)
      × (is_set (forward_toggle slot e) Flag.stream_forward_stop ≡ is_set e Flag.stream_forwarding)
      × (is_set (forward_toggle slot e) Flag.stream_forward_start
          ≡ not (is_set e Flag.stream_forwarding))
unfolding same
toggle_lem slot e h k = (
  ground (arith, is_set-forward_toggle slot e Flag.stream_forwarding),
  ground (arith, is_set-forward_toggle slot e Flag.stream_forward_stop),
  ground (arith, is_set-forward_toggle slot e Flag.stream_forward_start),
)

pub abort_lem :
    (e : DiscoveredItem)
    → is_set e Flag.stream_forward_start ≡ false
    → is_set e Flag.stream_forward_stop ≡ false
    → (is_set (abort e) Flag.stream_forwarding ≡ is_set e Flag.stream_forwarding)
      × (is_set (abort e) Flag.stream_forward_stop ≡ is_set e Flag.stream_forwarding)
      × (is_set (abort e) Flag.stream_forward_start ≡ false)
unfolding abort same
abort_lem e h k = ground (
  arith,
  is_set-state_set e Flag.pcap_record_stop Flag.stream_forwarding,
  is_set-state_set e Flag.pcap_record_stop Flag.stream_forward_stop,
  is_set-state_set e Flag.pcap_record_stop Flag.stream_forward_start,
  is_set-state_set e Flag.stream_forward_stop Flag.stream_forwarding,
  is_set-state_set e Flag.stream_forward_stop Flag.stream_forward_stop,
  is_set-state_set e Flag.stream_forward_stop Flag.stream_forward_start,
  is_set-state_set (turn_on Flag.pcap_record_stop e) Flag.stream_forward_stop
      Flag.stream_forwarding,
  is_set-state_set (turn_on Flag.pcap_record_stop e) Flag.stream_forward_stop
      Flag.stream_forward_stop,
  is_set-state_set (turn_on Flag.pcap_record_stop e) Flag.stream_forward_stop
      Flag.stream_forward_start,
)
