-- ===== src/PcapQueue.antt =====
-- The queue of captured packets between the capture thread and the statistics thread
-- (pcap_queue_* in src/nic_monitor_pcap.c): a list of free buffers and a list of used ones under
-- one lock, which each step below holds. `none` stands for a write past a buffer or through NULL.
pub mod Order
pub mod Buffers
pub mod Reduction
pub mod Pool
mod Tests
use ltntstools.Base.{
  ℕ, zero, suc, ◌+◌, ◌-◌, ◌*◌, Bool, true, false, not, ◌&&◌, Option, none, some, List, [], ◌∷◌,
  ◌++◌, ltb, leb, ◌==◌, if◌then◌else◌, length,
}

-- QUEUE_MIN
abbrev pub queue_min : ℕ
queue_min = 8192

-- A packet as libpcap passes it: `h->len`, and its bytes.
pub record Packet : Type 0 where
  pub len : ℕ
  pub bytes : List ℕ

-- struct pcap_item_s: the bytes allocated for `pkt`, and what `h` and `pkt` hold.
pub record Buffer : Type 0 where
  pub capacity : ℕ
  pub held : Packet

-- The fields of the context that the queue uses.
pub record Queue : Type 0 where
  pub free : List Buffer
  pub used : List Buffer
  pub free_depth : ℕ
  pub used_depth : ℕ
  pub free_miss : ℕ
  pub malloc_miss : ℕ
  pub last_buffer_time : ℕ
  pub last_buffers_used : ℕ
  pub buffers_used : ℕ
  pub queue_time_last : ℕ

-- What the C library answers, call by call.
pub record Allocations : Type 0 where
  pub item_ok : Bool
  pub header_ok : Bool
  pub packet_ok : Bool
  pub realloc_ok : Bool

unfoldable pub empty : Queue
empty = record {
  free = [];
  used = [];
  free_depth = 0;
  used_depth = 0;
  free_miss = 0;
  malloc_miss = 0;
  last_buffer_time = 0;
  last_buffers_used = 0;
  buffers_used = 0;
  queue_time_last = 0;
}

-- pcap_queue_initialize with `n` buffers for its QUEUE_MIN: `left_over` is what the memory of the
-- headers held, which is not cleared.
unfoldable pub initialize : (ℕ → Packet) → ℕ → Queue → Queue
initialize left_over zero q = q
initialize left_over (suc n) q = initialize left_over n (record q {
  free = q.free ++ record { capacity = 1700; held = left_over n } ∷ [];
  free_depth = q.free_depth + 1;
})

-- The copy of the packet, at the end of `used`.
unfoldable pub enqueue : Buffer → Packet → Queue → Option Queue
enqueue b p q =
    if leb p.len b.capacity
    then some
        (record q { used = q.used ++ record b { held = p } ∷ []; used_depth = q.used_depth + 1 })
    else none

-- The body of pcap_queue_push, by whether `free` is empty.
unfoldable pub push_from : Allocations → List Buffer → Queue → Packet → Option (Queue × Bool)
unfolding enqueue
push_from m [] q p =
    let missed : Queue = record q { free_miss = q.free_miss + 1 } in
    if m.item_ok && m.header_ok && m.packet_ok
    then elim (enqueue (record { capacity = p.len; held = p }) p missed) [
      | none ↦ none
      | some q' ↦ some (q', true)
    ]
    else some (record missed { malloc_miss = q.malloc_miss + 1 }, false)
push_from m (b ∷ rest) q p =
    let taken : Queue = record q { free = rest; free_depth = q.free_depth - 1 } in
    if ltb b.held.len p.len && not m.realloc_ok
    then none
    else elim (enqueue (if ltb b.held.len p.len then record b { capacity = p.len } else b) p
        taken) [ none ↦ none | some q' ↦ some (q', true) ]

-- pcap_queue_push: the queue, and whether the packet was taken.
unfoldable pub push : Allocations → Queue → Packet → Option (Queue × Bool)
unfolding push_from
push m q p = push_from m q.free q p

-- The statistics thread: the queue, its temporary list `items`, and what it has processed.
pub record Service : Type 0 where
  pub queue : Queue
  pub items : List Buffer
  pub processed : List Packet

-- The first loop of pcap_queue_service, from the buffer at the head of `used` on.
unfoldable pub move_used : List Buffer → Service → Service
move_used [] s = s
move_used (b ∷ rest) s = move_used rest (record s {
  queue = record s.queue { used = rest; used_depth = s.queue.used_depth - 1 };
  items = s.items ++ b ∷ [];
})

unfoldable pub take_used : Service → Service
unfolding move_used
take_used s = move_used s.queue.used s

-- The second loop, once around: the packet is processed, and its buffer is free.
unfoldable pub give_back_from : List Buffer → Service → Service
give_back_from [] s = s
give_back_from (b ∷ rest) s = record {
  queue = record s.queue { free = s.queue.free ++ b ∷ []; free_depth = s.queue.free_depth + 1 };
  items = rest;
  processed = s.processed ++ b.held ∷ [];
}

unfoldable pub give_back : Service → Service
unfolding give_back_from
give_back s = give_back_from s.items s

-- The end of pcap_queue_service, which counts the buffers of each second.
unfoldable pub account : ℕ → ℕ → Queue → Queue
account now count q =
    if q.last_buffer_time == now
    then record q { buffers_used = q.buffers_used + count }
    else record q {
      last_buffer_time = now;
      last_buffers_used = q.buffers_used;
      buffers_used = count;
    }

-- The loop of pcap_queue_free_reduce, from the head of `free` on.
unfoldable pub free_reduce_from : ℕ → List Buffer → Queue → Queue
free_reduce_from zero xs q = q
free_reduce_from (suc count) [] q = q
free_reduce_from (suc count) (b ∷ rest) q = elim (ltb queue_min q.free_depth) [
  | false ↦ q
  | true ↦ free_reduce_from count rest (record q { free = rest; free_depth = q.free_depth - 1 })
]

unfoldable pub free_reduce : ℕ → Queue → Queue
unfolding free_reduce_from
free_reduce count q = free_reduce_from count q.free q

-- How many buffers pcap_queue_rebalance asks to free. The source computes with doubles; here both
-- sides of each comparison are multiplied by 100.
unfoldable pub surplus : Queue → ℕ
surplus q =
    let balance : ℕ = q.free_depth * 100 - q.last_buffers_used * 15 in
    if ltb (100000 * 100) balance
    then 100000
    else if ltb (50000 * 100) balance
    then 50000
    else if ltb (20000 * 100) balance
    then 20000
    else if ltb (10000 * 100) balance
    then 10000
    else 0

-- pcap_queue_rebalance
unfoldable pub rebalance : ℕ → Queue → Queue
unfolding free_reduce surplus
rebalance now q =
    if ltb (q.queue_time_last + 5) now
    then free_reduce (surplus q) (record q { queue_time_last = now })
    else q

-- The steps of the two threads, each under the lock, in any order.
pub data Event : Type 0 where
  pushed : Allocations → Packet → Event
  took gave : Event
  accounted : ℕ → ℕ → Event
  rebalanced : ℕ → Event

unfoldable pub step : Service → Event → Option (Service × List Packet)
unfolding push take_used give_back account rebalance
step s (pushed m p) = elim (push m s.queue p) [
  | none ↦ none
  | some (q, accepted) ↦ some (record s { queue = q }, if accepted then p ∷ [] else [])
]
step s took = some (take_used s, [])
step s gave = some (give_back s, [])
step s (accounted now count) = some (record s { queue = account now count s.queue }, [])
step s (rebalanced now) = some (record s { queue = rebalance now s.queue }, [])

-- A history: the state at the end, and the packets that were accepted.
unfoldable pub run : Service → List Event → Option (Service × List Packet)
unfolding step
run s [] = some (s, [])
run s (e ∷ es) = elim (step s e) [
  | none ↦ none
  | some (t, accepted) ↦ elim (run t es) [
    | none ↦ none
    | some (u, more) ↦ some (u, accepted ++ more)
  ]
]
