-- ===== src/Capture.antt =====
-- What is done with a captured frame: pcap_update_statistics on the capture thread and
-- pcap_io_process on the statistics thread (src/nic_monitor_pcap.c), up to the calls of
-- _processPackets_Stats and _processPackets_IO.
pub mod Accepted
pub mod Counts
mod Tests
use ltntstools.Base.{
  ℕ, ◌+◌, ◌-◌, ◌/◌, Bool, true, false, not, ◌||◌, Option, none, some, List, [], ◌∷◌, ◌&&◌, ltb,
  ◌==◌, if◌then◌else◌,
}
use ltntstools.Item.{PayloadType, Headers, DiscoveredItem}
use ltntstools.Monitor.{ToolContext, Environment, find_addr, update_addr, findcreate}
use ltntstools.Payload.{determine_payload_type, type_number, reads}

-- A frame of pcap: its length on the wire, the fields of its ethernet, ip and udp headers that the
-- code reads, in the order of the host except for those of `headers`, and the bytes after the udp
-- header, of which `captured` were captured.
pub record Frame : Type 0 where
  pub len : ℕ
  pub ether_type : ℕ
  pub protocol : ℕ
  pub headers : Headers
  pub udp_len : ℕ
  pub captured : ℕ
  pub ptr : ℕ → ℕ

-- What _processPackets_Stats and _processPackets_IO are given: where in the payload the packets
-- start, how many they are, and the length. A length below 0 is 0, which is a count of 0 too.
pub record Handed : Type 0 where
  pub offset : ℕ
  pub pkt_count : ℕ
  pub length_bytes : ℕ

-- The three early ends: the sizes of the headers are 14, 20 and 8.
unfoldable pub is_udp_frame : Frame → Bool
is_udp_frame f =
    if ltb f.len (14 + 20 + 8)
    then false
    else if f.ether_type == 0x0800
    then f.protocol == 17
    else false

abbrev pub all_below : ℕ → List ℕ → Bool
all_below n [] = true
all_below n (x ∷ xs) = ltb x n && all_below n xs

-- The object's type is known, or its discovery reads captured bytes only.
unfoldable pub reads_captured : Frame → DiscoveredItem → Bool
unfolding reads
reads_captured f e =
    if type_number e.payload_type == 0
    then all_below f.captured (reads f.ptr (f.udp_len - 8))
    else true

-- `if (di->payloadType == PAYLOAD_UNDEFINED)`, and the time of the last packet.
unfoldable pub see : ℕ → Frame → DiscoveredItem → DiscoveredItem
see now f e =
    let seen : DiscoveredItem = record e { last_updated = now } in
    if type_number e.payload_type == 0
    then (let (d, t) = determine_payload_type e.discovery f.ptr (f.udp_len - 8) in
        record seen { discovery = d; payload_type = t })
    else seen

-- What is handed on, by the type that the object now has.
unfoldable pub handed : PayloadType → Frame → Handed
handed PayloadType.rtp_ts f = record {
  offset = 12;
  pkt_count = (f.udp_len - 8 - 12) / 188;
  length_bytes = f.udp_len - 8 - 12;
}
handed _ f = record { offset = 0; pkt_count = (f.udp_len - 8) / 188; length_bytes = f.udp_len - 8 }

-- Through the pointer that findcreate returned. `none` is a pointer to no object, or a read past what
-- was captured.
unfoldable pub at_object : ℕ → Frame → ℕ → ToolContext → Option (ToolContext × Option (ℕ × Handed))
unfolding see handed reads_captured
at_object now f addr ctx = elim (find_addr addr ctx.list) [
  | none ↦ none
  | some e ↦
      if reads_captured f e
      then some (
        record ctx { list = update_addr addr (see now f) ctx.list },
        some (addr, handed (see now f e).payload_type f),
      )
      else none
]

unfoldable pub after_findcreate :
    ℕ → Frame → Option ℕ × ToolContext → Option (ToolContext × Option (ℕ × Handed))
unfolding at_object
after_findcreate now f (none, ctx) = some (ctx, none)
after_findcreate now f (some addr, ctx) = at_object now f addr ctx

-- pcap_update_statistics: the context, and the object with what it is handed, where it is called.
-- The outer `none` is a fault.
unfoldable pub update_statistics :
    Environment → ToolContext → Frame → Option (ToolContext × Option (ℕ × Handed))
unfolding is_udp_frame after_findcreate
update_statistics env ctx f =
    if is_udp_frame f
    then elim (findcreate env ctx f.headers) [ none ↦ none | some r ↦ after_findcreate env.now f r ]
    else some (ctx, none)

-- pcap_io_process, of a frame of which the first 13 bytes after the udp header were captured: it takes
-- a frame for RTP by its bytes, and counts with the udp header.
unfoldable pub io_process : Frame → Option (Bool × Handed)
unfolding is_udp_frame
io_process f =
    if is_udp_frame f
    then (let is_rtp : Bool = if f.ptr 0 == 0x47 then false else f.ptr 12 == 0x47 in
        some (
          is_rtp,
          record {
            offset = if is_rtp then 12 else 0;
            pkt_count = f.udp_len / 188;
            length_bytes = f.udp_len;
          },
        ))
    else none
