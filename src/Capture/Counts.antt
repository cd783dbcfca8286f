-- ===== src/Capture/Counts.antt =====
-- How many packets the two threads count in a frame, and where the bytes of these packets lie.
use ltntstools.Base.{
  ◌≡◌, refl, ℕ, ◌+◌, ◌-◌, ◌*◌, ◌/◌, ◌%◌, ◌<◌, ◌≤◌, Bool, true, false, some, arith, ◌==◌,
  if◌then◌else◌,
}
use ltntstools.Item.{PayloadType}
use ltntstools.Capture.{Frame, Handed, is_udp_frame, handed, io_process}

-- Where the bytes end that are read for what is handed on: after the three headers.
abbrev pub read_end : Handed → ℕ
read_end h = 42 + h.offset + 188 * h.pkt_count

-- What the statistics thread hands on.
abbrev pub io_handed : Bool → Frame → Handed
io_handed rtp f = record {
  offset = if rtp then 12 else 0;
  pkt_count = f.udp_len / 188;
  length_bytes = f.udp_len;
}

-- In a frame of k packets of a transport stream, which all begin with the byte 0x47, under an RTP
-- header that does not or under none: both threads count k packets and start at the same byte.
pub counts_agree :
    (f : Frame) (k : ℕ) (rtp : Bool)
    → is_udp_frame f ≡ true
    → f.udp_len ≡ (if rtp then 20 else 8) + 188 * k
    → (f.ptr 0 == 0x47) ≡ (if rtp then false else true)
    → f.ptr (if rtp then 12 else 0) ≡ 0x47
    → (io_process f ≡ some (rtp, io_handed rtp f))
      × ((io_handed rtp f).pkt_count ≡ k)
      × ((handed (if rtp then PayloadType.rtp_ts else PayloadType.udp_ts) f).pkt_count ≡ k)
      × ((handed (if rtp then PayloadType.rtp_ts else PayloadType.udp_ts) f).offset
          ≡ (io_handed rtp f).offset)
unfolding io_process handed
counts_agree f k true ok len first sync = (ground (arith), omega arith, omega arith, refl)
counts_agree f k false ok len first sync = (ground arith, omega arith, omega arith, refl)

-- If the udp header claims no more than the frame has, the packets that the capture thread hands on
-- lie inside the frame, whatever the type of the stream.
pub handed_inside :
    (t : PayloadType) (f : Frame)
    → f.udp_len + 34 ≤ f.len
    → 0 < (handed t f).pkt_count
    → read_end (handed t f) ≤ f.len
unfolding handed
handed_inside PayloadType.rtp_ts f fits some_packets = omega arith
handed_inside PayloadType.undefined f fits some_packets = omega arith
handed_inside PayloadType.udp_ts f fits some_packets = omega arith
handed_inside PayloadType.a324_ctp f fits some_packets = omega arith
handed_inside PayloadType.byte_stream f fits some_packets = omega arith
handed_inside PayloadType.smpte2110_20_video f fits some_packets = omega arith
handed_inside PayloadType.smpte2110_30_audio f fits some_packets = omega arith
handed_inside PayloadType.smpte2110_40_anc f fits some_packets = omega arith

io_process_lem :
    (f : Frame)
    → is_udp_frame f ≡ true
    → (rtp : Bool) × (io_process f ≡ some (rtp, io_handed rtp f))
unfolding io_process
io_process_lem f ok = (if f.ptr 0 == 0x47 then false else f.ptr 12 == 0x47, ground arith)

-- The length in the udp header is not compared with the frame's: a frame that passes the checks
-- and claims a whole packet more than it holds is read past its end, by both threads.
pub read_past :
    (f : Frame)
    → is_udp_frame f ≡ true
    → f.len < f.udp_len + 34 - (f.udp_len - 8) % 188
    → 196 ≤ f.udp_len
    → (f.len < read_end (handed PayloadType.udp_ts f))
      × ((rtp : Bool) × (io_process f ≡ some (rtp, io_handed rtp f))
          × (f.len < read_end (io_handed rtp f)))
unfolding handed
read_past f ok short big =
    let (rtp, same) = io_process_lem f ok in
    (omega arith, (rtp, same, elim rtp [ true ↦ omega arith | false ↦ omega arith ]))

-- The statistics thread counts with the udp header: a frame that holds exactly what its header
-- claims, where this length is at least 188 and its rest by 188 is below 8, is read past its end.
pub io_reads_past :
    (f : Frame)
    → is_udp_frame f ≡ true
    → f.len ≡ f.udp_len + 34
    → 188 ≤ f.udp_len
    → f.udp_len % 188 < 8
    → (rtp : Bool) × (io_process f ≡ some (rtp, io_handed rtp f))
      × (f.len < read_end (io_handed rtp f))
io_reads_past f ok exact big rest =
    let (rtp, same) = io_process_lem f ok in
    (rtp, same, elim rtp [ true ↦ omega arith | false ↦ omega arith ])
