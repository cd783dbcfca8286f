-- ===== src/Clocks.antt =====
-- The clock inspector (src/clock_inspector.c): the continuity counters and the system clock of each
-- PID, and the list that keeps time stamps in order. What libltntools reads in a packet is a
-- parameter. The array of 8192 entries is a function of the PID, which has 13 bits. What is
-- printed is left out.
pub mod Separate
pub mod Counters
pub mod Timing
pub mod StreamTime
pub mod Ordered
mod Tests
use ltntstools.Base.{
  ℕ, zero, suc, ◌+◌, ◌*◌, ◌/◌, ◌%◌, ◌^◌, bit_and, Bool, true, false, not, ◌&&◌, ◌||◌, Option, none,
  some, List, [], ◌∷◌, ltb, ◌==◌, if◌then◌else◌,
}
use ltntstools.Statistics.{ℤ, leb_ℤ}

-- ltntstools_pid, ltntstools_continuity_counter, ltntstools_adaption_field_control,
-- ltntstools_scr, with none where it returns a negative number, and ltntstools_scr_diff.
pub record Library : Type 1 where
  pub Packet : Type 0
  pub pid : Packet → ℕ
  pub continuity_counter : Packet → ℕ
  pub adaption_field_control : Packet → ℕ
  pub scr : Packet → Option ℕ
  pub scr_diff : ℕ → ℕ → ℕ

-- struct pid_s, without the time stamps of the elementary streams.
pub record Pid : Type 0 where
  pub pkt_count : ℕ
  pub cc : ℕ
  pub cc_errors : ℕ
  pub scr_first : ℕ
  pub scr_first_time : ℕ
  pub scr : ℕ
  pub scr_update_count : ℕ

-- struct tool_context_s
pub record Context : Type 0 where
  pub initial_time : ℕ
  pub current_stream_time : ℕ
  pub pids : ℕ → Pid
  pub do_packet_statistics : Bool
  pub do_scr_statistics : Bool

abbrev pub null_pid : ℕ
null_pid = 0x1fff

-- What processSCRStats writes in the entry of the PID: the first SCR starts the clock, at the time `now`.
unfoldable pub scr_pid : ℕ → Pid → ℕ → Pid
scr_pid now q scr =
    let started : Pid =
      if ltb 0 q.scr_update_count then q else record q { scr_first = scr; scr_first_time = now } in
    record started { scr = scr; scr_update_count = (q.scr_update_count + 1) % 2 ^ 64 }

unfoldable pub set_pid : (ℕ → Pid) → ℕ → Pid → ℕ → Pid
set_pid pids k q i = if k == i then q else pids i

module _ (lib : Library) where
  -- The tests of processPacketStats on a packet, whose PID has counted it already.
  unfoldable pub is_cc_error : Pid → lib.Packet → Bool
  is_cc_error q pkt =
      (lib.adaption_field_control pkt == 1 || lib.adaption_field_control pkt == 3)
      && (ltb 1 q.pkt_count
          && (not (bit_and ((q.cc + 1) % 2 ^ 32) 0xf == lib.continuity_counter pkt)
              && not (lib.pid pkt == null_pid)))

  -- What processPacketStats writes in the entry of the PID.
  unfoldable pub packet_pid : Pid → lib.Packet → Pid
  unfolding is_cc_error
  packet_pid q pkt =
      let counted : Pid = record q { pkt_count = (q.pkt_count + 1) % 2 ^ 64 } in
      let checked : Pid =
        if is_cc_error counted pkt
        then record counted { cc_errors = (counted.cc_errors + 1) % 2 ^ 64 }
        else counted in
      record checked { cc = lib.continuity_counter pkt }

  -- processPacketStats
  unfoldable pub process_packet_stats : Context → lib.Packet → Context
  unfolding set_pid packet_pid
  process_packet_stats ctx pkt =
      let pid = lib.pid pkt in
      record ctx { pids = set_pid ctx.pids pid (packet_pid (ctx.pids pid) pkt) }

  -- processSCRStats
  unfoldable pub process_scr_stats : Context → lib.Packet → Context
  unfolding set_pid scr_pid
  process_scr_stats ctx pkt = elim (lib.scr pkt) [
    | none ↦ ctx
    | some scr ↦
        let pid = lib.pid pkt in
        let q = scr_pid ctx.initial_time (ctx.pids pid) scr in
        record ctx {
          pids = set_pid ctx.pids pid q;
          current_stream_time = q.scr_first_time + lib.scr_diff q.scr_first scr / 27000000;
        }
  ]

  -- The body of the loop over the packets of a buffer.
  unfoldable pub process_packet : Context → lib.Packet → Context
  unfolding process_packet_stats process_scr_stats
  process_packet ctx pkt =
      let counted = if ctx.do_packet_statistics then process_packet_stats ctx pkt else ctx in
      if counted.do_scr_statistics then process_scr_stats counted pkt else counted

  unfoldable pub process_packets : Context → List lib.Packet → Context
  unfolding process_packet
  process_packets ctx [] = ctx
  process_packets ctx (pkt ∷ rest) = process_packets (process_packet ctx pkt) rest

-- The zeroes of `calloc`, and the context that the options leave.
abbrev pub zeroes : Pid
zeroes = record {
  pkt_count = 0;
  cc = 0;
  cc_errors = 0;
  scr_first = 0;
  scr_first_time = 0;
  scr = 0;
  scr_update_count = 0;
}

abbrev pub fresh : ℕ → Bool → Bool → Context
fresh now packets scrs = record {
  initial_time = now;
  current_stream_time = 0;
  pids = λ k. zeroes;
  do_packet_statistics = packets;
  do_scr_statistics = scrs;
}

-- struct ordered_clock_item_s. The list is written from its tail, where the search starts.
pub record ClockItem : Type 0 where
  pub nr : ℕ
  pub clock : ℤ
  pub filepos : ℕ

-- The loop of ordered_clock_insert, with none where it ends without an insertion.
unfoldable pub insert_after : ClockItem → List ClockItem → Option (List ClockItem)
insert_after src [] = none
insert_after src (item ∷ before) =
    if leb_ℤ item.clock src.clock
    then some (src ∷ item ∷ before)
    else elim (insert_after src before) [ none ↦ none | some l ↦ some (item ∷ l) ]

-- ordered_clock_insert
unfoldable pub ordered_clock_insert : List ClockItem → ClockItem → List ClockItem
unfolding insert_after
ordered_clock_insert [] src = src ∷ []
ordered_clock_insert (item ∷ before) src = elim (insert_after src (item ∷ before)) [
  | none ↦ item ∷ before
  | some l ↦ l
]

unfoldable pub ordered_clock_inserts : List ClockItem → List ClockItem → List ClockItem
unfolding ordered_clock_insert
ordered_clock_inserts l [] = l
ordered_clock_inserts l (src ∷ rest) = ordered_clock_inserts (ordered_clock_insert l src) rest
