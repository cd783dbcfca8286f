-- ===== src/Threads.antt =====
-- The threads of nic_monitor (src/nic_monitor.c): the statistics thread with its reports
-- (stats_thread_func), the capture thread (pcap_thread_func) from its loop on, and the flags by which main
-- stops a thread. The clock, what libpcap counts and what a read gives are arguments of each round.
pub mod Reports
pub mod Counters
pub mod EndTime
pub mod Shutdown
mod Tests
use ltntstools.Base.{
  ℕ, ◌+◌, ◌-◌, ◌%◌, ◌^◌, Bool, true, false, not, ◌&&◌, ◌||◌, Option, none, some, List, [], ◌∷◌, leb,
  ◌==◌, if◌then◌else◌, ◌≡◌,
}
use ltntstools.Options.{InputType, pcap, mpegts_file, mpegts_avdevice}

-- One of the periodic reports: when the next is due; whether its banner is still to be
-- written, where the report has one, which the JSON report has not; and the reports written, the
-- latest first, with their times and banners.
pub record Timer : Type 0 where
  pub next_write_time : ℕ
  pub banner : Option Bool
  pub written : List (ℕ × Option Bool)

-- The two file reports and the JSON report, the calls of the housekeeping, and the rounds that
-- found nothing to do and sleep.
pub record Stats : Type 0 where
  pub file_prefix : Bool
  pub detailed_file_prefix : Bool
  pub file_write_interval : ℕ
  pub json_write_interval : ℕ
  pub file : Timer
  pub detailed : Timer
  pub json : Timer
  pub housekeepings : ℕ
  pub sleeps : ℕ

-- After a banner has been written.
abbrev pub used : Option Bool → Option Bool
used none = none
used (some b) = some false

unfoldable pub is_due : Bool → Timer → ℕ → Bool
is_due enabled t now = enabled && leb t.next_write_time now

unfoldable pub fire : Bool → ℕ → ℕ → Timer → Timer
unfolding is_due
fire enabled interval now t =
    if is_due enabled t now
    then record {
      next_write_time = now + interval;
      banner = used t.banner;
      written = (now, t.banner) ∷ t.written;
    }
    else t

-- The start of stats_thread_func: a report that is not planned yet comes after one interval.
unfoldable pub plan : ℕ → ℕ → Timer → Timer
plan interval now t =
    if t.next_write_time == 0 then record t { next_write_time = now + interval } else t

unfoldable pub stats_start : ℕ → Stats → Stats
unfolding plan
stats_start now s = record s {
  file = plan s.file_write_interval now s.file;
  detailed = plan s.file_write_interval now s.detailed;
}

-- A round of the loop: whether the queue had packets, and the time.
unfoldable pub stats_round : Stats → Bool × ℕ → Stats
unfolding fire is_due
stats_round s (served, now) =
    let busy =
      served
      || (is_due s.file_prefix s.file now
          || (is_due s.detailed_file_prefix s.detailed now || is_due true s.json now)) in
    record s {
      file = fire s.file_prefix s.file_write_interval now s.file;
      detailed = fire s.detailed_file_prefix s.file_write_interval now s.detailed;
      json = fire true s.json_write_interval now s.json;
      housekeepings = if served then s.housekeepings + 1 else s.housekeepings;
      sleeps = if busy then s.sleeps else s.sleeps + 1;
    }

unfoldable pub stats_rounds : Stats → List (Bool × ℕ) → Stats
unfolding stats_round
stats_rounds s [] = s
stats_rounds s (r ∷ rest) = stats_rounds (stats_round s r) rest

-- struct pcap_stat, numbers of 32 bits.
pub record PcapStat : Type 0 where
  pub ps_recv : ℕ
  pub ps_drop : ℕ
  pub ps_ifdrop : ℕ

-- What avio_read gives: nothing for now, an error, or bytes.
pub data DeviceRead : Type 0 where
  again failed : DeviceRead
  bytes : ℕ → DeviceRead

-- One round of the capture thread sees the packets that pcap_dispatch handled, the read of the
-- device, the time, and what pcap_stats leaves in its argument, for two calls.
pub record Round : Type 0 where
  pub processed : ℕ
  pub read : DeviceRead
  pub now : ℕ
  pub first_stat : PcapStat
  pub stat : PcapStat

pub record PcapThread : Type 0 where
  pub iftype : InputType
  pub end_time : ℕ
  pub dispatch_miss : ℕ
  pub reframed : ℕ
  pub last_stats_check : ℕ
  pub stats_startup : PcapStat
  pub stats : PcapStat
  pub rebalances : ℕ
  pub left : Bool
  pub running : Bool

abbrev pub no_stat : PcapStat
no_stat = record { ps_recv = 0; ps_drop = 0; ps_ifdrop = 0 }

abbrev pub is_pcap : InputType → Bool
is_pcap pcap = true
is_pcap _ = false

-- The difference of unsigned numbers.
unfoldable pub sub32 : ℕ → ℕ → ℕ
sub32 a b = (a + 2 ^ 32 - b) % 2 ^ 32

unfoldable pub since : PcapStat → PcapStat → PcapStat
unfolding sub32
since tmp start = record {
  ps_recv = sub32 tmp.ps_recv start.ps_recv;
  ps_drop = sub32 tmp.ps_drop start.ps_drop;
  ps_ifdrop = sub32 tmp.ps_ifdrop start.ps_ifdrop;
}

-- From the time on: the counters, the rebalancing of the queue, and the end time.
unfoldable pub after_input : PcapThread → Round → PcapThread
unfolding since
after_input t r =
    let started =
      if t.last_stats_check == 0 && is_pcap t.iftype
      then record t { stats_startup = r.first_stat }
      else t in
    let checked = if r.now == t.last_stats_check then started else record started {
      last_stats_check = r.now;
      stats = if is_pcap t.iftype then since r.stat started.stats_startup else no_stat;
    } in
    let balanced = record checked { rebalances = checked.rebalances + 1 } in
    if not (t.end_time == 0) && leb t.end_time r.now
    then record balanced { running = false; left = true }
    else balanced

-- The input from a device, where an empty read skips the rest of the round and an error leaves.
unfoldable pub device_round : PcapThread → Round → DeviceRead → PcapThread
unfolding after_input
device_round t r again = t
device_round t r failed = record t { left = true }
device_round t r (bytes n) = after_input (record t { reframed = t.reframed + n }) r

unfoldable pub input_round : InputType → PcapThread → Round → PcapThread
unfolding after_input device_round
input_round pcap t r =
    after_input (if r.processed == 0 then record t { dispatch_miss = t.dispatch_miss + 1 } else t) r
input_round mpegts_file t r = after_input t r
input_round mpegts_avdevice t r = device_round t r r.read

-- The loop, until it is left or the thread is told to end, at the end of the list.
unfoldable pub pcap_rounds : PcapThread → List Round → PcapThread
unfolding input_round
pcap_rounds t [] = t
pcap_rounds t (r ∷ rest) = if t.left then t else pcap_rounds (input_round t.iftype t r) rest

-- The flags of a thread, and where the thread and main are.
pub data ThreadState : Type 0 where
  created looping ending returned : ThreadState

pub data MainState : Type 0 where
  in_keys waiting past : MainState

pub record Flags : Type 0 where
  pub terminate : Bool
  pub terminated : Bool
  pub thread : ThreadState
  pub main : MainState

-- The thread clears both flags when it begins, tests the one before each round and sets the other after
-- its loop; then it frees what it has, and returns. Main sets the one after its loop over the keys, and waits for the other. The capture thread
-- also `breaks` out of its loop: at its end time, when a device fails, or for want of a buffer.
pub data Step (breaks : Bool) : Flags → Flags → Type 0 where
  begins :
      (f : Flags)
      → f.thread ≡ created
      → Step breaks f (record f { terminate = false; terminated = false; thread = looping })
  works : (f : Flags) → f.thread ≡ looping → f.terminate ≡ false → Step breaks f f
  tells :
      (f : Flags)
      → f.thread ≡ looping
      → f.terminate || breaks ≡ true
      → Step breaks f (record f { terminated = true; thread = ending })
  returns : (f : Flags) → f.thread ≡ ending → Step breaks f (record f { thread = returned })
  asks :
      (f : Flags) → f.main ≡ in_keys → Step breaks f (record f { terminate = true; main = waiting })
  goes_on :
      (f : Flags)
      → f.main ≡ waiting
      → f.terminated ≡ true
      → Step breaks f (record f { main = past })

pub data Reach (breaks : Bool) (f : Flags) : Flags → Type 0 where
  here : Reach breaks f f
  next : {g h : Flags} → Reach breaks f g → Step breaks g h → Reach breaks f h

-- After pthread_create, in the context of zeroes.
abbrev pub fresh_flags : Flags
fresh_flags = record { terminate = false; terminated = false; thread = created; main = in_keys }
