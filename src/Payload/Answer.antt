-- ===== src/Payload/Answer.antt =====
-- What the discovery answers, and after how many packets it does.
use ltntstools.Base.{
  ℕ, ◌+◌, ◌-◌, ◌%◌, ◌≤◌, ◌<◌, ◌≡◌, refl, Bool, true, false, ◌&&◌, List, [], ◌∷◌, arith, ltb, ◌==◌,
  if◌then◌else◌, length, Bool-cases, inl, inr,
}
use ltntstools.Item.{PayloadType, Discovery}
use ltntstools.Payload.{
  Payload, synced, is_udp_ts, is_rtp_ts, rtp_type, unidentified, determine_payload_type, discover,
  type_number,
}

-- The tests of the second and third synchronisation byte decide nothing: a packet is taken for a
-- transport stream if and only if its length is a positive multiple of 188 and its first byte is
-- 0x47, and for one in RTP if and only if that holds of what follows its first twelve bytes.
pub synced_lem :
    (ptr : ℕ → ℕ) (n : ℕ)
    → (is_udp_ts ptr n ≡ (n % 188 == 0 && ltb 0 n && ptr 0 == 0x47))
      × (is_rtp_ts ptr n ≡ (ltb 12 n && (n - 12) % 188 == 0 && ptr 12 == 0x47))
unfolding is_udp_ts is_rtp_ts synced
synced_lem ptr n = (ground arith, ground arith)

-- A result that leaves the type undefined has been counted, and was not one too many.
record Counted (d : Discovery) (r : Discovery × PayloadType) : Type 0 where
  counted :
      (type_number r.1 == 0) ≡ true
      → (d.unidentified ≤ 12) × (r.0.unidentified ≡ d.unidentified + 1)

if-Counted :
    (d : Discovery) (b : Bool) (x y : Discovery × PayloadType)
    → Counted d x
    → Counted d y
    → Counted d (if b then x else y)
if-Counted d true x y h k = h
if-Counted d false x y h k = k

known-Counted :
    (d e : Discovery) (t : PayloadType) → (type_number t == 0) ≡ false → Counted d (e, t)
known-Counted d e t known = record { counted = λ unknown. absurd (ground (arith, known, unknown)) }

unidentified-Counted :
    (d e : Discovery) → e.unidentified ≡ d.unidentified → Counted d (unidentified e)
unfolding unidentified type_number
unidentified-Counted d e same = record {
  counted = λ h. (ground (arith, same, h), ground (arith, same));
}

found-Counted :
    (d e : Discovery) (b : Bool) (t : PayloadType)
    → e.unidentified ≡ d.unidentified
    → (type_number t == 0) ≡ false
    → Counted d (if b then (e, t) else unidentified e)
found-Counted d e b t same known =
    if-Counted d b (e, t) (unidentified e) (known-Counted d e t known)
      (unidentified-Counted d e same)

undefined_counted :
    (d : Discovery) (ptr : ℕ → ℕ) (n : ℕ) → Counted d (determine_payload_type d ptr n)
unfolding determine_payload_type type_number
undefined_counted d ptr n =
    if-Counted d (is_udp_ts ptr n) _ _ (known-Counted d d PayloadType.udp_ts refl) (
      if-Counted d (is_rtp_ts ptr n) _ _ (known-Counted d d PayloadType.rtp_ts refl) (
        if-Counted d (rtp_type ptr 97) _ _
          (found-Counted d (record d { a324_found = d.a324_found + 1 }) (ltb 2 (d.a324_found + 1))
            PayloadType.a324_ctp refl refl)
          (if-Counted d (rtp_type ptr 96) _ _
            (found-Counted d (record d { smpte2110_video_found = d.smpte2110_video_found + 1 })
              (ltb 4 (d.smpte2110_video_found + 1)) PayloadType.smpte2110_20_video refl refl)
            (if-Counted d (rtp_type ptr 98) _ _
              (found-Counted d (record d { smpte2110_audio_found = d.smpte2110_audio_found + 1 })
                (ltb 4 (d.smpte2110_audio_found + 1)) PayloadType.smpte2110_30_audio refl refl)
              (if-Counted d (rtp_type ptr 100) _ _
                (found-Counted d (record d { smpte2110_anc_found = d.smpte2110_anc_found + 1 })
                  (ltb 4 (d.smpte2110_anc_found + 1)) PayloadType.smpte2110_40_anc refl refl)
                (unidentified-Counted d (record d { a324_found = 0 }) refl))))))

-- The type of a stream is found with its fourteenth packet at the latest: as many packets as the
-- counter of unidentified ones lacks of fourteen are enough, whatever they are.
pub discover-type_number :
    (l : List Payload) (d : Discovery)
    → 13 < length l + d.unidentified
    → d.unidentified ≤ 13
    → (type_number (discover d l).1 == 0) ≡ false
unfolding discover type_number
discover-type_number [] d enough few = absurd (omega (arith, enough, few))
discover-type_number (p ∷ l) d enough few =
    elim (Bool-cases (type_number (determine_payload_type d p.ptr p.length_bytes).1 == 0)) [
      | inr known ↦ rw (known, discover) known
      | inl again ↦
          let (below, counted) = (undefined_counted d p.ptr p.length_bytes).counted again in
          rw (again, discover)
            (discover-type_number l (determine_payload_type d p.ptr p.length_bytes).0
              (omega (arith, counted, enough)) (omega (arith, counted, below)))
    ]
