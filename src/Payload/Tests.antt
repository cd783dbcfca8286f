-- ===== src/Payload/Tests.antt =====
-- The theorems about the discovery at packets that it does not know.
use ltntstools.Base.{◌≡◌, false, [], ◌∷◌, arith, ◌==◌}
use ltntstools.Item.{Discovery}
use ltntstools.Payload.{Payload, discover, type_number}
use ltntstools.Payload.Answer.{discover-type_number}

abbrev unknown : Payload
unknown = record { ptr = λ _. 0; length_bytes = 100 }

abbrev thirteen : Discovery
thirteen = record {
  unidentified = 12;
  a324_found = 0;
  smpte2110_video_found = 0;
  smpte2110_audio_found = 0;
  smpte2110_anc_found = 0;
}

discover-type_number_example :
    (type_number (discover thirteen (unknown ∷ unknown ∷ [])).1 == 0) ≡ false
discover-type_number_example =
    discover-type_number (unknown ∷ unknown ∷ []) thirteen (omega arith) (omega arith)
