-- ===== src/Capture/Tests.antt =====
-- The theorems about captured frames at frames of a transport stream.
use ltntstools.Base.{ℕ, ◌-◌, arith, ◌≡◌, refl, true, some, ◌==◌, if◌then◌else◌, Option}
use ltntstools.Item.Samples.{second_headers}
use ltntstools.Monitor.{ToolContext}
use ltntstools.Monitor.Samples.{
  one_stream, one_stream-IsValid, environment, environment-IsFresh, second_inside,
}
use ltntstools.Capture.{Frame, Handed, is_udp_frame, update_statistics}
use ltntstools.Capture.Accepted.{Accepted, update_statistics-Accepted}

-- A frame of the second stream: its length, the length in the udp header, and where the packets
-- begin.
abbrev frame : ℕ → ℕ → ℕ → Frame
frame len udp_len sync = record {
  len = len;
  ether_type = 0x0800;
  protocol = 17;
  headers = second_headers;
  udp_len = udp_len;
  captured = len - 42;
  ptr = λ i. if i == sync then 0x47 else 0x80;
}

is_udp : (is_udp_frame (frame 1370 1336 12) ≡ true) × (is_udp_frame (frame 60 1324 0) ≡ true)
unfolding is_udp_frame
is_udp = (refl, refl)

-- Seven packets under an RTP header.
update_statistics-Accepted_example :
    (ctx : ToolContext) × (h : Option (ℕ × Handed)) × (update_statistics environment one_stream
        (frame 1370 1336 12)
      ≡ some (ctx, h))
    × Accepted environment (frame 1370 1336 12) one_stream ctx h
update_statistics-Accepted_example =
    update_statistics-Accepted environment (frame 1370 1336 12) one_stream one_stream-IsValid
      environment-IsFresh second_inside is_udp.0 (omega arith, omega arith)

is_udp_short : is_udp_frame (frame 222 188 0) ≡ true
unfolding is_udp_frame
is_udp_short = refl
