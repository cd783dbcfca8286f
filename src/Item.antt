-- ===== src/Item.antt =====
-- struct discovered_item_s and its state word (src/nic_monitor.h), and the functions on the word
-- (src/nic_monitor_di.c). `addr` is the address of the object, which pointers to it hold.
pub mod Flags
pub mod Samples
use ltntstools.Base.{
  ℕ, ◌+◌, ◌-◌, ◌*◌, ◌/◌, ◌%◌, ◌^◌, Bool, not, ◌&&◌, ◌==◌, bit_and, bit_or, if◌then◌else◌,
}
use ltntstools.Document.{Document}

-- The DI_STATE_* bits, in their order.
pub data Flag : Type 0 where
  selected cc_error pcap_record_start pcap_recording pcap_record_stop : Flag
  show_pids show_tr101290 dst_duplicate show_iat_histogram hidden : Flag
  show_streammodel show_processes stream_forward_start stream_forwarding : Flag
  stream_forward_stop json_probe_active show_scte35 show_stream_log show_clocks : Flag

unfoldable pub position : Flag → ℕ
position selected = 0
position cc_error = 1
position pcap_record_start = 2
position pcap_recording = 3
position pcap_record_stop = 4
position show_pids = 5
position show_tr101290 = 6
position dst_duplicate = 7
position show_iat_histogram = 8
position hidden = 9
position show_streammodel = 10
position show_processes = 11
position stream_forward_start = 12
position stream_forwarding = 13
position stream_forward_stop = 14
position json_probe_active = 15
position show_scte35 = 16
position show_stream_log = 17
position show_clocks = 18

-- `(1 << n)`
unfoldable pub mask : Flag → ℕ
mask f = 2 ^ position f

pub data PayloadType : Type 0 where
  undefined udp_ts rtp_ts a324_ctp byte_stream : PayloadType
  smpte2110_20_video smpte2110_30_audio smpte2110_40_anc : PayloadType

-- What identifies a stream: the addresses of its ip header and the ports of its udp header, as
-- the fields hold them, in network byte order.
pub record Headers : Type 0 where
  pub saddr : ℕ
  pub daddr : ℕ
  pub source : ℕ
  pub dest : ℕ

-- The counters of the payload discovery.
pub record Discovery : Type 0 where
  pub unidentified : ℕ
  pub a324_found : ℕ
  pub smpte2110_video_found : ℕ
  pub smpte2110_audio_found : ℕ
  pub smpte2110_anc_found : ℕ

pub record DiscoveredItem : Type 0 where
  pub addr : ℕ
  pub headers : Headers
  pub open headers use *
  pub payload_type : PayloadType
  pub state : ℕ
  pub last_updated : ℕ
  pub cache_hash_key : ℕ
  pub has_hidden_duplicates : Bool
  pub forward_slot_nr : ℕ
  pub discovery : Discovery
  pub doc_stream_log : Document
  pub doc_scte35 : Document

-- The state word is an unsigned int: `~m` is taken over 32 bits.
unfoldable pub state_set : DiscoveredItem → ℕ → DiscoveredItem
state_set di m = record di { state = bit_or di.state m }

unfoldable pub state_clr : DiscoveredItem → ℕ → DiscoveredItem
state_clr di m = record di { state = bit_and di.state (2 ^ 32 - 1 - m) }

unfoldable pub state_get : DiscoveredItem → ℕ → ℕ
state_get di m = bit_and di.state m

-- The test `if (discovered_item_state_get(di, f))`.
unfoldable pub is_set : DiscoveredItem → Flag → Bool
unfolding state_get mask
is_set di f = not (state_get di (mask f) == 0)

-- The byte swaps of a little-endian host.
unfoldable pub ntohs : ℕ → ℕ
ntohs x = x % 256 * 256 + x / 256

unfoldable pub ntohl : ℕ → ℕ
ntohl x = x % 2 ^ 8 * 2 ^ 24 + x / 2 ^ 8 % 2 ^ 8 * 2 ^ 16 + x / 2 ^ 16 % 2 ^ 8 * 2 ^ 8 + x / 2 ^ 24

-- network_addr_compare (src/utils.c), and is_di_duplicate on the headers of two objects.
unfoldable pub network_addr_compare : Headers → Headers → Bool
network_addr_compare x y =
    x.saddr == y.saddr && x.daddr == y.daddr && x.source == y.source && x.dest == y.dest
