-- ===== src/Item/Samples.antt =====
-- Objects for the tests.
use ltntstools.Base.{ℕ, false, []}
use ltntstools.Document.{Document}
use ltntstools.Item.{Headers, DiscoveredItem, PayloadType}

abbrev pub sample_document : Document
sample_document = record {
  lines = [];
  line_count = 0;
  display_line_from = 0;
  page_size = 0;
  max_page_size = 10;
}

-- Two senders to port 5000 of one address, with the fields in network byte order.
abbrev pub first_headers : Headers
first_headers = record { saddr = 0x0100000a; daddr = 0x010000e3; source = 0x8813; dest = 0x8813 }

abbrev pub second_headers : Headers
second_headers = record { saddr = 0x0200000a; daddr = 0x010000e3; source = 0x8813; dest = 0x8813 }

-- The object of an address, headers and hash, with a state word and the time of its last packet.
abbrev pub sample : ℕ → Headers → ℕ → ℕ → ℕ → DiscoveredItem
sample addr headers hash state last_updated = record {
  addr = addr;
  headers = headers;
  payload_type = PayloadType.udp_ts;
  state = state;
  last_updated = last_updated;
  cache_hash_key = hash;
  has_hidden_duplicates = false;
  forward_slot_nr = 0;
  discovery = record {
    unidentified = 0;
    a324_found = 0;
    smpte2110_video_found = 0;
    smpte2110_audio_found = 0;
    smpte2110_anc_found = 0;
  };
  doc_stream_log = sample_document;
  doc_scte35 = sample_document;
}
