-- ===== src/Threads/Counters.antt =====
-- The losses that libpcap counts, as they are shown.
use ltntstools.Base.{
  ◌≡◌, refl, ap, ◌∙◌, inl, inr, ℕ, ◌+◌, ◌-◌, ◌≤◌, ◌<◌, ◌%◌, ◌^◌, false, List, [], ◌∷◌, ◌++◌, arith,
  ◌==◌, if◌then◌else◌, Bool-cases, All,
}
use ltntstools.Options.{InputType, pcap, mpegts_file, mpegts_avdevice}
use ltntstools.Threads.EndTime.{pcap_rounds_on}
use ltntstools.Threads.{
  PcapThread, PcapStat, Round, sub32, since, after_input, input_round, pcap_rounds,
}

-- What libpcap gives of true counts.
abbrev pub wrapped : PcapStat → PcapStat
wrapped s = record {
  ps_recv = s.ps_recv % 2 ^ 32;
  ps_drop = s.ps_drop % 2 ^ 32;
  ps_ifdrop = s.ps_ifdrop % 2 ^ 32;
}

-- The counts have grown, by less than their width.
abbrev pub Grew : PcapStat → PcapStat → Type 0
Grew a b =
    (a.ps_recv ≤ b.ps_recv)
    × (b.ps_recv < a.ps_recv + 2 ^ 32)
    × (a.ps_drop ≤ b.ps_drop)
    × (b.ps_drop < a.ps_drop + 2 ^ 32)
    × (a.ps_ifdrop ≤ b.ps_ifdrop)
    × (b.ps_ifdrop < a.ps_ifdrop + 2 ^ 32)

abbrev pub growth : PcapStat → PcapStat → PcapStat
growth a b = record {
  ps_recv = b.ps_recv - a.ps_recv;
  ps_drop = b.ps_drop - a.ps_drop;
  ps_ifdrop = b.ps_ifdrop - a.ps_ifdrop;
}

sub32_lem : (a b : ℕ) → a ≤ b → b < a + 2 ^ 32 → sub32 (b % 2 ^ 32) (a % 2 ^ 32) ≡ b - a
unfolding sub32
sub32_lem a b h k = omega arith

since_lem : (a b : PcapStat) → Grew a b → since (wrapped b) (wrapped a) ≡ growth a b
unfolding since
since_lem a b (r, r', d, d', i, i') =
    rw
      (
        sub32_lem a.ps_recv b.ps_recv r r',
        sub32_lem a.ps_drop b.ps_drop d d',
        sub32_lem a.ps_ifdrop b.ps_ifdrop i i',
      )
      refl

-- A thread on an interface with no end time, that has looked at the counters before the time `n`.
abbrev Watches : PcapStat → ℕ → PcapThread → Type 0
Watches start n t =
    (t.iftype ≡ pcap)
    × (t.end_time ≡ 0)
    × (t.left ≡ false)
    × (t.stats_startup ≡ start)
    × (0 < t.last_stats_check)
    × (t.last_stats_check < n)

after_input-Watches :
    (start : PcapStat) (n : ℕ) (t : PcapThread) (r : Round)
    → Watches start n t
    → 0 < r.now
    → r.now < n
    → Watches start n (after_input t r)
unfolding after_input
after_input-Watches start n t r (k, e, l, s, p, b) pos before = ground arith

-- A thread before its first look at the counters.
abbrev Begins : PcapThread → Type 0
Begins t = (t.iftype ≡ pcap) × (t.end_time ≡ 0) × (t.left ≡ false) × (t.last_stats_check ≡ 0)

after_input-Begins :
    (n : ℕ) (t : PcapThread) (r : Round)
    → Begins t
    → 0 < r.now
    → r.now < n
    → Watches r.first_stat n (after_input t r)
unfolding after_input
after_input-Begins n t r (k, e, l, z) pos before = ground arith

after_input-shows :
    (start : PcapStat) (t : PcapThread) (r : Round)
    → Watches start r.now t
    → (after_input t r).stats ≡ since r.stat start
unfolding after_input
after_input-shows start t r (k, e, l, s, p, b) = ground arith

-- The thread after pcap_dispatch.
abbrev dispatched : PcapThread → Round → PcapThread
dispatched t r = if r.processed == 0 then record t { dispatch_miss = t.dispatch_miss + 1 } else t

input_round-pcap :
    (k : InputType) (t : PcapThread) (r : Round)
    → k ≡ pcap
    → input_round k t r ≡ after_input (dispatched t r) r
unfolding input_round
input_round-pcap pcap t r is = refl
input_round-pcap mpegts_file t r is = cc
input_round-pcap mpegts_avdevice t r is = cc

dispatched-keeps :
    (P : PcapThread → Type 0) (t : PcapThread) (r : Round)
    → P t
    → P (record t { dispatch_miss = t.dispatch_miss + 1 })
    → P (dispatched t r)
dispatched-keeps P t r p q = elim (Bool-cases (r.processed == 0)) [
  | inl missed ↦ rw missed q
  | inr some_handled ↦ rw some_handled p
]

pcap_round :
    (t : PcapThread) (r : Round) (rest : List Round)
    → t.iftype ≡ pcap
    → t.left ≡ false
    → pcap_rounds t (r ∷ rest) ≡ pcap_rounds (after_input (dispatched t r) r) rest
pcap_round t r rest is going =
    pcap_rounds_on t r rest going ∙ ap (λ u. pcap_rounds u rest) (input_round-pcap t.iftype t r is)

-- After any rounds before the time of a last one, the losses are those since `start`.
watched_stats :
    (start : PcapStat) (rounds : List Round) (last : Round) (t : PcapThread)
    → Watches start last.now t
    → All (λ r. (0 < r.now) × (r.now < last.now)) rounds
    → (pcap_rounds t (rounds ++ last ∷ [])).stats ≡ since last.stat start
unfolding pcap_rounds
watched_stats start [] last t (k, e, l, s, p, b) earlier =
    let watches =
      dispatched-keeps (Watches start last.now) t last (k, e, l, s, p, b) (k, e, l, s, p, b) in
    ap (λ u. u.stats) (pcap_round t last [] k l)
    ∙ after_input-shows start (dispatched t last) last watches
watched_stats start (r ∷ rounds) last t (k, e, l, s, p, b) ((pos, before), later) =
    let watches =
      dispatched-keeps (Watches start last.now) t r (k, e, l, s, p, b) (k, e, l, s, p, b) in
    ap (λ u. u.stats) (pcap_round t r (rounds ++ last ∷ []) k l)
    ∙ watched_stats start rounds last (after_input (dispatched t r) r)
        (after_input-Watches start last.now (dispatched t r) r watches pos before) later

-- On an interface with no end time: when libpcap counts `a` in the first round and `b`, with less
-- than 2^32 more of each, in a later one at a later second than all before, the losses that
-- are shown are the differences, though what libpcap gives has wrapped round.
pub shown_exact :
    (a b : PcapStat) (t : PcapThread) (first last : Round) (rounds : List Round)
    → (t.iftype ≡ pcap) × (t.end_time ≡ 0) × (t.left ≡ false) × (t.last_stats_check ≡ 0)
    → 0 < first.now
    → first.now < last.now
    → All (λ r. (0 < r.now) × (r.now < last.now)) rounds
    → first.first_stat ≡ wrapped a
    → last.stat ≡ wrapped b
    → Grew a b
    → (pcap_rounds t (first ∷ (rounds ++ last ∷ []))).stats ≡ growth a b
shown_exact a b t first last rounds (k, e, l, z) pos before earlier begun ended grew =
    let begins = dispatched-keeps Begins t first (k, e, l, z) (k, e, l, z) in
    ap (λ u. u.stats) (pcap_round t first (rounds ++ last ∷ []) k l)
    ∙ watched_stats first.first_stat rounds last (after_input (dispatched t first) first)
        (after_input-Begins last.now (dispatched t first) first begins pos before) earlier
    ∙ rw (begun, ended) (since_lem a b grew)
