-- ===== src/Keys/Steady.antt =====
-- What no key changes: a relation between an object before and after, and its proof for what each
-- key does to an object and to the list.
use ltntstools.Base.{◌≡◌, refl, ℕ, Bool, true, false, not, ◌||◌, arith, inl, inr, Bool-cases}
use ltntstools.Document.{Document}
use ltntstools.Item.{Flag, DiscoveredItem, is_set, state_get, state_set, state_clr}
use ltntstools.Item.Flags.{is_set-state_set, is_set-state_clr, same}
use ltntstools.Selection.{
  turn_on, turn_off, if_selected, toggle, toggle_clocks, hide, record_toggle, forward_toggle, abort,
}

-- The same stream, with the same answers of the discovery; being recorded, being forwarded, in
-- error and a duplicate as before; and while it is recorded it is not made hidden.
pub record Steady (e e' : DiscoveredItem) : Type 0 where
  pub same_addr : e'.addr ≡ e.addr
  pub same_headers : e'.headers ≡ e.headers
  pub same_payload : e'.payload_type ≡ e.payload_type
  pub same_time : e'.last_updated ≡ e.last_updated
  pub same_hash : e'.cache_hash_key ≡ e.cache_hash_key
  pub recording : is_set e' Flag.pcap_recording ≡ is_set e Flag.pcap_recording
  pub forwarding : is_set e' Flag.stream_forwarding ≡ is_set e Flag.stream_forwarding
  pub cc_error : is_set e' Flag.cc_error ≡ is_set e Flag.cc_error
  pub duplicate : is_set e' Flag.dst_duplicate ≡ is_set e Flag.dst_duplicate
  pub not_hidden :
      (not (is_set e Flag.pcap_recording) || not (is_set e' Flag.hidden) || is_set e Flag.hidden)
      ≡ true

pub Steady-refl : (e : DiscoveredItem) → Steady e e
Steady-refl e = ground arith

pub Steady-trans : {e f g : DiscoveredItem} → Steady e f → Steady f g → Steady e g
Steady-trans p q = ground arith

-- The flags that no key may turn over, and no key may turn on.
abbrev pub guarded : Flag → Bool
guarded f =
    same f Flag.pcap_recording
    || same f Flag.stream_forwarding
    || same f Flag.cc_error
    || same f Flag.dst_duplicate

abbrev pub guarded_on : Flag → Bool
guarded_on f = guarded f || same f Flag.hidden

pub Steady-turn_on : (f : Flag) (e : DiscoveredItem) → guarded_on f ≡ false → Steady e (turn_on f e)
unfolding state_set
Steady-turn_on f e h =
    let on = λ (g : Flag). is_set-state_set e f g in
    ground (
      arith,
      on Flag.pcap_recording,
      on Flag.stream_forwarding,
      on Flag.cc_error,
      on Flag.dst_duplicate,
      on Flag.hidden,
    )

pub Steady-turn_off : (f : Flag) (e : DiscoveredItem) → guarded f ≡ false → Steady e (turn_off f e)
unfolding state_clr
Steady-turn_off f e h =
    let off = λ (g : Flag). is_set-state_clr e f g in
    ground (
      arith,
      off Flag.pcap_recording,
      off Flag.stream_forwarding,
      off Flag.cc_error,
      off Flag.dst_duplicate,
      off Flag.hidden,
    )

-- What one key does to one object.
pub Steady-toggle : (f : Flag) (e : DiscoveredItem) → guarded_on f ≡ false → Steady e (toggle f e)
unfolding toggle
Steady-toggle f e h = elim (Bool-cases (is_set e f)) [
  | inl s ↦ rw (s, toggle) (Steady-turn_off f e (ground arith))
  | inr u ↦ rw (u, toggle) (Steady-turn_on f e h)
]

pub Steady-hide : (e : DiscoveredItem) → Steady e (hide e)
unfolding hide same state_set
Steady-hide e =
    let on = λ (g : Flag). is_set-state_set e Flag.hidden g in
    ground (
      arith,
      on Flag.pcap_recording,
      on Flag.stream_forwarding,
      on Flag.cc_error,
      on Flag.dst_duplicate,
      on Flag.hidden,
    )

pub Steady-toggle_clocks : (e : DiscoveredItem) → Steady e (toggle_clocks e)
unfolding toggle_clocks same
Steady-toggle_clocks e =
    let on : DiscoveredItem = turn_on Flag.show_clocks e in
    ground (
      arith,
      Steady-turn_off Flag.show_clocks e refl,
      Steady-turn_on Flag.show_clocks e refl,
      Steady-turn_on Flag.show_streammodel on refl,
      Steady-trans (Steady-turn_on Flag.show_clocks e refl)
          (Steady-turn_on Flag.show_streammodel on refl),
    )

pub Steady-record_toggle : (e : DiscoveredItem) → Steady e (record_toggle e)
unfolding record_toggle same
Steady-record_toggle e = ground (
  arith,
  Steady-turn_on Flag.pcap_record_stop e refl,
  Steady-turn_on Flag.pcap_record_start e refl,
)

pub Steady-with_slot :
    (e : DiscoveredItem) (slot : ℕ) → Steady e (record e { forward_slot_nr = slot })
unfolding is_set state_get
Steady-with_slot e slot = ground arith

pub Steady-with_log :
    (e : DiscoveredItem) (d : Document) → Steady e (record e { doc_stream_log = d })
unfolding is_set state_get
Steady-with_log e d = ground arith

pub Steady-forward_toggle : (slot : ℕ) (e : DiscoveredItem) → Steady e (forward_toggle slot e)
unfolding forward_toggle same
Steady-forward_toggle slot e =
    let stop : DiscoveredItem = turn_on Flag.stream_forward_stop e in
    let slotted : DiscoveredItem = record e { forward_slot_nr = slot } in
    elim (Bool-cases (is_set e Flag.stream_forwarding || is_set e Flag.stream_forward_start)) [
      | inl busy ↦
          rw (busy, forward_toggle)
            (Steady-trans {f = stop} (Steady-turn_on Flag.stream_forward_stop e refl)
              (Steady-with_slot stop 0))
      | inr idle ↦
          rw (idle, forward_toggle)
            (Steady-trans {f = slotted} (Steady-with_slot e slot)
              (Steady-turn_on Flag.stream_forward_start slotted refl))
    ]

pub Steady-abort : (e : DiscoveredItem) → Steady e (abort e)
unfolding abort same
Steady-abort e =
    let stop : DiscoveredItem = turn_on Flag.pcap_record_stop e in
    ground (
      arith,
      Steady-refl e,
      Steady-turn_on Flag.pcap_record_stop e refl,
      Steady-turn_on Flag.stream_forward_stop e refl,
      Steady-trans (Steady-turn_on Flag.pcap_record_stop e refl)
          (Steady-turn_on Flag.stream_forward_stop stop refl),
    )

pub Steady-if_selected :
    (f : DiscoveredItem → DiscoveredItem) (e : DiscoveredItem)
    → Steady e (f e)
    → Steady e (if_selected f e)
unfolding if_selected
Steady-if_selected f e h = ground (arith, Steady-refl e)
