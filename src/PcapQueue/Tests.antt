-- ===== src/PcapQueue/Tests.antt =====
-- The theorems about the queue at two small packets.
use ltntstools.Base.{◌≡◌, ◌++◌, refl, true, false, some, List, [], ◌∷◌, arith}
use ltntstools.PcapQueue.{
  Packet, Queue, Allocations, Service, pushed, took, gave, accounted, rebalanced, run,
}
use ltntstools.PcapQueue.Buffers.{IsSound, IsRunning, stream}
use ltntstools.PcapQueue.Order.{run-stream}

abbrev first_packet : Packet
first_packet = record { len = 2; bytes = 1 ∷ 2 ∷ [] }

abbrev second_packet : Packet
second_packet = record { len = 3; bytes = 3 ∷ 4 ∷ 5 ∷ [] }

abbrev granted : Allocations
granted = record { item_ok = true; header_ok = true; packet_ok = true; realloc_ok = true }

abbrev refused : Allocations
refused = record { item_ok = true; header_ok = false; packet_ok = true; realloc_ok = true }

-- One free buffer.
abbrev one_free : Queue
one_free = record {
  free = record { capacity = 2; held = first_packet } ∷ [];
  used = [];
  free_depth = 1;
  used_depth = 0;
  free_miss = 0;
  malloc_miss = 0;
  last_buffer_time = 0;
  last_buffers_used = 0;
  buffers_used = 0;
  queue_time_last = 0;
}

one_free-IsSound : IsSound one_free
one_free-IsSound = record {
  free_counted = refl;
  used_counted = refl;
  free_fits = (omega arith, tt);
  used_fits = tt;
}

abbrev service : Service
service = record { queue = one_free; items = []; processed = [] }

service-IsRunning : IsRunning service
service-IsRunning = record { sound = one_free-IsSound; items_fit = tt }

-- The second packet is refused, the third comes between the two sections of the service.
run-stream_example :
    (t : Service) × (accepted : List Packet) × (run service (
        pushed granted first_packet
        ∷ pushed refused second_packet
        ∷ took
        ∷ pushed granted second_packet
        ∷ gave
        ∷ accounted 5 1
        ∷ rebalanced 9
        ∷ [])
      ≡ some (t, accepted))
    × IsRunning t
    × (stream t ≡ stream service ++ accepted)
run-stream_example =
    run-stream
      (pushed granted first_packet
        ∷ pushed refused second_packet
        ∷ took
        ∷ pushed granted second_packet
        ∷ gave
        ∷ accounted 5 1
        ∷ rebalanced 9
        ∷ [])
      service service-IsRunning (refl, (refl, (tt, (refl, (tt, (tt, (tt, tt)))))))

abbrev jumbo : Packet
jumbo = record { len = 9000; bytes = [] }
