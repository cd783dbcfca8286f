-- ===== src/Payload.antt =====
-- The discovery of a stream's payload type from its packets (determinePayloadType in
-- src/nic_monitor_pcap.c). A packet is its length and the bytes from `buf` on, as a function: the
-- code reads two bytes of a packet of any length.
pub mod Answer
mod Tests
use ltntstools.Base.{
  ℕ, ◌+◌, ◌-◌, ◌*◌, ◌%◌, Bool, true, false, ◌&&◌, List, [], ◌∷◌, ◌++◌, ltb, leb, ◌==◌,
  if◌then◌else◌, bit_and,
}
use ltntstools.Item.{PayloadType, Discovery}

-- The three tests for synchronisation bytes, at the bytes from `ptr + offset` on.
unfoldable pub synced : (ℕ → ℕ) → ℕ → ℕ → Bool
synced ptr offset len =
    if leb (188 * 3) len
      && ptr offset == 0x47
      && ptr (offset + 188) == 0x47
      && ptr (offset + 188 * 2) == 0x47
    then true
    else if leb (188 * 2) len && ptr offset == 0x47 && ptr (offset + 188) == 0x47
    then true
    else leb 188 len && ptr offset == 0x47

unfoldable pub is_udp_ts : (ℕ → ℕ) → ℕ → Bool
unfolding synced
is_udp_ts ptr length_bytes = if length_bytes % 188 == 0 then synced ptr 0 length_bytes else false

unfoldable pub is_rtp_ts : (ℕ → ℕ) → ℕ → Bool
unfolding synced
is_rtp_ts ptr length_bytes =
    if ltb 12 length_bytes && (length_bytes - 12) % 188 == 0
    then synced ptr 12 (length_bytes - 12)
    else false

-- `((ptr[0] & 0xcf) == 0x80) && ((ptr[1] & 0x7f) == type)`
unfoldable pub rtp_type : (ℕ → ℕ) → ℕ → Bool
rtp_type ptr type = bit_and (ptr 0) 0xcf == 0x80 && bit_and (ptr 1) 0x7f == type

-- The last test: `discovery_unidentified++ > 12`.
unfoldable pub unidentified : Discovery → Discovery × PayloadType
unidentified d = (
  record d { unidentified = d.unidentified + 1 },
  if ltb 12 d.unidentified then PayloadType.byte_stream else PayloadType.undefined,
)

-- determinePayloadType: the counters of the object, and the type.
unfoldable pub determine_payload_type : Discovery → (ℕ → ℕ) → ℕ → Discovery × PayloadType
unfolding is_udp_ts is_rtp_ts rtp_type unidentified
determine_payload_type d ptr length_bytes =
    if is_udp_ts ptr length_bytes
    then (d, PayloadType.udp_ts)
    else if is_rtp_ts ptr length_bytes
    then (d, PayloadType.rtp_ts)
    else if rtp_type ptr 97
    then (let e : Discovery = record d { a324_found = d.a324_found + 1 } in
        if ltb 2 e.a324_found then (e, PayloadType.a324_ctp) else unidentified e)
    else if rtp_type ptr 96
    then (let e : Discovery = record d { smpte2110_video_found = d.smpte2110_video_found + 1 } in
        if ltb 4 e.smpte2110_video_found
        then (e, PayloadType.smpte2110_20_video)
        else unidentified e)
    else if rtp_type ptr 98
    then (let e : Discovery = record d { smpte2110_audio_found = d.smpte2110_audio_found + 1 } in
        if ltb 4 e.smpte2110_audio_found
        then (e, PayloadType.smpte2110_30_audio)
        else unidentified e)
    else if rtp_type ptr 100
    then (let e : Discovery = record d { smpte2110_anc_found = d.smpte2110_anc_found + 1 } in
        if ltb 4 e.smpte2110_anc_found then (e, PayloadType.smpte2110_40_anc) else unidentified e)
    else unidentified (record d { a324_found = 0 })

-- The bytes that are read, by their places: the tests of the synchronisation bytes end at the first
-- that fails, and the two bytes of the RTP header are read of a packet of any length.
unfoldable pub synced_reads : (ℕ → ℕ) → ℕ → ℕ → List ℕ
synced_reads ptr offset len =
    let third : List ℕ =
      if leb (188 * 3) len && ptr (offset + 188) == 0x47 then ((offset + 188 * 2) ∷ []) else [] in
    let second : List ℕ =
      if leb (188 * 2) len && ptr offset == 0x47 then ((offset + 188) ∷ third) else [] in
    if leb 188 len then (offset ∷ second) else []

unfoldable pub reads : (ℕ → ℕ) → ℕ → List ℕ
unfolding synced_reads is_udp_ts is_rtp_ts
reads ptr length_bytes =
    (if length_bytes % 188 == 0 then synced_reads ptr 0 length_bytes else [])
    ++ (if is_udp_ts ptr length_bytes
        then []
        else (if ltb 12 length_bytes && (length_bytes - 12) % 188 == 0
            then synced_reads ptr 12 (length_bytes - 12)
            else [])
          ++ (if is_rtp_ts ptr length_bytes
              then []
              else (0 ∷ (if bit_and (ptr 0) 0xcf == 0x80 then (1 ∷ []) else []))))

-- A packet.
pub record Payload : Type 0 where
  pub ptr : ℕ → ℕ
  pub length_bytes : ℕ

-- The numbers of the types in their enumeration.
unfoldable pub type_number : PayloadType → ℕ
type_number PayloadType.undefined = 0
type_number PayloadType.udp_ts = 1
type_number PayloadType.rtp_ts = 2
type_number PayloadType.a324_ctp = 3
type_number PayloadType.byte_stream = 4
type_number PayloadType.smpte2110_20_video = 5
type_number PayloadType.smpte2110_30_audio = 6
type_number PayloadType.smpte2110_40_anc = 7

-- `if (di->payloadType == PAYLOAD_UNDEFINED)`, for one packet of the stream after the other.
unfoldable pub discover : Discovery → List Payload → Discovery × PayloadType
unfolding determine_payload_type type_number
discover d [] = (d, PayloadType.undefined)
discover d (p ∷ rest) =
    let r : Discovery × PayloadType = determine_payload_type d p.ptr p.length_bytes in
    elim (type_number r.1 == 0) [ true ↦ discover r.0 rest | false ↦ r ]
