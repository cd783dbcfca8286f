-- ===== src/Forwarding.antt =====
-- Forwarding a stream to another address: the flags that the operator sets, and the forwarding
-- part of _processPackets_IO (src/nic_monitor_pcap.c), which runs for each packet. The output is
-- FFmpeg's: avio_open2 sets the handle to NULL where it fails, and avio_close accepts NULL.
-- `none` stands for a fault: a closed handle that is used, a NULL handle that is written to, or an
-- access outside `url_forwards`.
pub mod Flags
pub mod Sessions
mod Tests
use ltntstools.Base.{
  ℕ, ◌-◌, Bool, true, false, Option, none, some, List, [], ◌∷◌, ltb, if◌then◌else◌,
}
use ltntstools.Item.{Flag, DiscoveredItem, is_set}
use ltntstools.Selection.{turn_on, turn_off, forward_toggle, abort}

-- What `forwardAVIO` points to.
pub data Handle : Type 0 where
  null opened closed : Handle

pub record Forwarder : Type 0 where
  pub item : DiscoveredItem
  pub handle : Handle

-- avio_close leaves the pointer as it is.
unfoldable pub close : Handle → Option Handle
close null = some null
close opened = some closed
close closed = none

unfoldable pub clear_flags : DiscoveredItem → DiscoveredItem
clear_flags e =
    turn_off Flag.stream_forwarding
      (turn_off Flag.stream_forward_stop (turn_off Flag.stream_forward_start e))

-- `if (discovered_item_state_get(di, DI_STATE_STREAM_FORWARD_STOP))`
unfoldable pub stop : Forwarder → Option Forwarder
unfolding clear_flags close
stop f =
    if is_set f.item Flag.stream_forward_stop
    then elim (close f.handle) [
      | none ↦ none
      | some h ↦ some (record { item = clear_flags f.item; handle = h })
    ]
    else some f

unfoldable pub start_flags : DiscoveredItem → DiscoveredItem
start_flags e = turn_on Flag.stream_forwarding (turn_off Flag.stream_forward_start e)

-- `url_forwards[7 - di->forwardSlotNr]`: the index must not be negative, nor past the array.
unfoldable pub in_table : ℕ → ℕ → Bool
in_table size slot = if ltb 7 slot then false else ltb (7 - slot) size

-- `if (discovered_item_state_get(di, DI_STATE_STREAM_FORWARD_START))`, with the number of targets
-- and whether avio_open2 succeeds, of which the code takes no notice.
unfoldable pub start : ℕ → Bool → Forwarder → Option Forwarder
unfolding start_flags in_table
start size open_ok f =
    if is_set f.item Flag.stream_forward_start
    then if in_table size f.item.forward_slot_nr
      then some (record { item = start_flags f.item; handle = if open_ok then opened else null })
      else none
    else some f

-- The packets are written to the handle.
unfoldable pub forward : Forwarder → Option Forwarder
forward f =
    if is_set f.item Flag.stream_forwarding
    then elim f.handle [ null ↦ none | opened ↦ some f | closed ↦ none ]
    else some f

-- The forwarding part of the handler, for one packet.
unfoldable pub process : ℕ → Bool → Forwarder → Option Forwarder
unfolding stop start forward
process size open_ok f = elim (stop f) [
  | none ↦ none
  | some a ↦ elim (start size open_ok a) [ none ↦ none | some b ↦ forward b ]
]

-- A key of the operator, or a packet and whether an open succeeds then.
pub data Event : Type 0 where
  toggled : ℕ → Event
  aborted : Event
  packet : Bool → Event

unfoldable pub step : ℕ → Forwarder → Event → Option Forwarder
unfolding process
step size f (toggled slot) = some (record f { item = forward_toggle slot f.item })
step size f aborted = some (record f { item = abort f.item })
step size f (packet open_ok) = process size open_ok f

unfoldable pub run : ℕ → Forwarder → List Event → Option Forwarder
unfolding step
run size f [] = some f
run size f (e ∷ es) = elim (step size f e) [ none ↦ none | some g ↦ run size g es ]
