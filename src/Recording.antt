-- ===== src/Recording.antt =====
-- Recording a stream to disk: the flags that the operator sets, and the recording part of
-- _processPackets_IO (src/nic_monitor_pcap.c), which runs for each packet on another thread.
-- The segment writer of libltntools and the disk are arguments. A use of a NULL writer is a
-- fault.
pub mod Lifecycle
mod Tests
use ltntstools.Base.{ℕ, ◌+◌, Bool, true, false, not, ◌&&◌, ◌||◌, List, [], ◌∷◌, leb, if◌then◌else◌}
use ltntstools.Item.{Flag, PayloadType, DiscoveredItem, mask, state_set, state_clr, is_set}
use ltntstools.Selection.{turn_on, turn_off, record_toggle, abort}

-- The fields of the object that recording uses beside its flags: `writer` is whether
-- `pcapRecorder` is not NULL.
pub record Recorder : Type 0 where
  pub item : DiscoveredItem
  pub writer : Bool
  pub record_as_ts : Bool
  pub last_free_space_check : ℕ

-- The options of the tool.
pub record Options : Type 0 where
  pub record_as_ts : Bool
  pub skip_free_space_check : Bool

-- What one packet finds: the clock, whether a writer and a buffer are to be had, and whether the
-- free space is known and at ten percent or less.
pub record Disk : Type 0 where
  pub now : ℕ
  pub alloc_ok : Bool
  pub object_ok : Bool
  pub low_space : Bool

-- The handler goes on, returns early, ends the process, or uses a NULL writer.
pub data Outcome : Type 0 where
  goes_on : Recorder → Outcome
  returns : Recorder → Outcome
  exits : Outcome
  fault : Outcome

infixl 5 ◌>>=◌
abbrev pub ◌>>=◌ : Outcome → (Recorder → Outcome) → Outcome
goes_on r >>= f = f r
returns r >>= f = returns r
exits >>= f = exits
fault >>= f = fault

-- The three flags are cleared together.
unfoldable pub clear_flags : DiscoveredItem → DiscoveredItem
clear_flags e =
    turn_off Flag.pcap_recording
      (turn_off Flag.pcap_record_stop (turn_off Flag.pcap_record_start e))

-- `if (discovered_item_state_get(di, DI_STATE_PCAP_RECORD_STOP))`
unfoldable pub stop : Recorder → Outcome
unfolding clear_flags
stop r =
    if is_set r.item Flag.pcap_record_stop
    then goes_on (record r { item = clear_flags r.item; writer = false })
    else goes_on r

-- Streams that are no transport streams are always recorded as PCAP.
unfoldable pub only_pcap : PayloadType → Bool
only_pcap PayloadType.byte_stream = true
only_pcap PayloadType.a324_ctp = true
only_pcap PayloadType.smpte2110_20_video = true
only_pcap PayloadType.smpte2110_30_audio = true
only_pcap PayloadType.smpte2110_40_anc = true
only_pcap _ = false

unfoldable pub start_flags : DiscoveredItem → DiscoveredItem
start_flags e = turn_on Flag.pcap_recording (turn_off Flag.pcap_record_start e)

-- `if (discovered_item_state_get(di, DI_STATE_PCAP_RECORD_START))`
unfoldable pub start : Options → Disk → Recorder → Outcome
unfolding start_flags only_pcap
start o d r =
    if is_set r.item Flag.pcap_record_start
    then if d.alloc_ok
      then goes_on (record r {
        item = start_flags r.item;
        writer = true;
        record_as_ts = if only_pcap r.item.payload_type then false else o.record_as_ts;
      })
      else exits
    else goes_on r

-- The check of the free space, every five seconds: the recording is told to stop.
unfoldable pub check_space : Bool → Disk → Recorder → Recorder
check_space skip d r =
    if leb (r.last_free_space_check + 5) d.now
    then record r {
      item = if d.low_space && not skip then turn_on Flag.pcap_record_stop r.item else r.item;
      last_free_space_check = d.now;
    }
    else r

-- A packet is written as PCAP, with a buffer that may not be had; then the function returns.
unfoldable pub write_pcap : Options → Disk → Recorder → Outcome
unfolding check_space
write_pcap o d r =
    if is_set r.item Flag.pcap_recording && not r.record_as_ts
    then if r.writer
      then if d.object_ok then goes_on (check_space o.skip_free_space_check d r) else returns r
      else fault
    else goes_on r

-- Packets are written as a transport stream: here the option to skip the check is not asked.
unfoldable pub write_ts : Disk → Recorder → Outcome
unfolding check_space
write_ts d r =
    if is_set r.item Flag.pcap_recording && r.record_as_ts
    then if r.writer then goes_on (check_space false d r) else fault
    else goes_on r

-- The recording part of the handler, for one packet.
unfoldable pub process : Options → Disk → Recorder → Outcome
process o d r = stop r >>= λ a. start o d a >>= λ b. write_pcap o d b >>= λ c. write_ts d c

-- What can happen to a stream between and at its packets.
pub data Event : Type 0 where
  toggled aborted : Event
  packet : Disk → Event

unfoldable pub step : Options → Recorder → Event → Outcome
step o r toggled = goes_on (record r { item = record_toggle r.item })
step o r aborted = goes_on (record r { item = abort r.item })
step o r (packet d) = process o d r

-- A history: a packet whose handling returns early is a packet all the same.
unfoldable pub run : Options → Recorder → List Event → Outcome
run o r [] = goes_on r
run o r (e ∷ es) = elim (step o r e) [
  | goes_on r' ↦ run o r' es
  | returns r' ↦ run o r' es
  | exits ↦ exits
  | fault ↦ fault
]
