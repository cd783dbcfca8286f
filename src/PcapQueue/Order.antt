-- ===== src/PcapQueue/Order.antt =====
-- The order of the packets through the interleavings of the two threads (src/nic_monitor_pcap.c).
use ltntstools.Base.{
  ℕ, ◌≡◌, refl, sym, ap, ◌∙◌, true, some, List, [], ◌∷◌, ◌++◌, arith, if◌then◌else◌, All,
}
use mathlib.Core.List.{append-nil, append_assoc}
use ltntstools.PcapQueue.{
  Packet, Queue, Service, take_used, give_back, account, rebalance, Event, pushed, took, gave,
  accounted, rebalanced, step, run,
}
use ltntstools.PcapQueue.Buffers.{
  held_all, IsSound, push-Pushed, IsRunning, stream, take_used_lem, give_back_lem,
}
use ltntstools.PcapQueue.Reduction.{rebalance_lem}

-- The C library can enlarge a buffer whenever a packet needs it.
abbrev pub Grants : Event → Type 0
Grants (pushed m p) = m.realloc_ok ≡ true
Grants took = Unit {0}
Grants gave = Unit {0}
Grants (accounted now count) = Unit {0}
Grants (rebalanced now) = Unit {0}

account-IsSound :
    (now count : ℕ) (q : Queue)
    → IsSound q
    → IsSound (account now count q) × ((account now count q).used ≡ q.used)
unfolding account
account-IsSound now count q s = (
  record {
    free_counted = ground (arith, s.free_counted);
    used_counted = ground (arith, s.used_counted);
    free_fits = ground (arith, s.free_fits);
    used_fits = ground (arith, s.used_fits);
  },
  ground arith,
)

-- A step on a running service does not fault, and adds to the stream what it accepts.
step_lem :
    (s : Service) (e : Event)
    → IsRunning s
    → Grants e
    → (t : Service) × (accepted : List Packet) × (step s e ≡ some (t, accepted))
      × IsRunning t
      × (stream t ≡ stream s ++ accepted)
unfolding step stream
step_lem s (pushed m p) r ok =
    let (q, accepted, done, result, _) = push-Pushed m s.queue p r.sound ok in
    (
      record s { queue = q },
      if accepted then p ∷ [] else [],
      rw (done, step),
      record { sound = result.sound; items_fit = r.items_fit },
      ap (λ l. s.processed ++ (held_all s.items ++ l)) result.last
          ∙ ap (λ l. s.processed ++ l)
              (sym (append_assoc (held_all s.items) (held_all s.queue.used) _))
          ∙ sym (append_assoc s.processed (held_all s.items ++ held_all s.queue.used) _),
    )
step_lem s took r ok =
    let (running, _, same) = take_used_lem s r in
    (take_used s, [], refl, running, same ∙ sym (append-nil _))
step_lem s gave r ok =
    let (running, same) = give_back_lem s r in
    (give_back s, [], refl, running, same ∙ sym (append-nil _))
step_lem s (accounted now count) r ok =
    let (sound, same) = account-IsSound now count s.queue r.sound in
    (
      record s { queue = account now count s.queue },
      [],
      refl,
      record { sound = sound; items_fit = r.items_fit },
      ap (λ l. s.processed ++ (held_all s.items ++ held_all l)) same ∙ sym (append-nil _),
    )
step_lem s (rebalanced now) r ok =
    let (sound, _, same) = rebalance_lem now s.queue r.sound in
    (
      record s { queue = rebalance now s.queue },
      [],
      refl,
      record { sound = sound; items_fit = r.items_fit },
      ap (λ l. s.processed ++ (held_all s.items ++ held_all l)) same ∙ sym (append-nil _),
    )

-- From a queue whose counters are the lengths of its lists, in which the header length of every free
-- buffer is at most its capacity and every held packet fits its buffer (with the items under way), in
-- every interleaving of captures with the sections of the service and the rebalancing, if the C
-- library can enlarge a buffer: no packet is written past a buffer, the same three conditions hold
-- after it, and what has been processed and what is on its way is, in order, what was there before and
-- the packets that were accepted since. The condition on the free buffers is not met by every start:
-- pcap_queue_initialize leaves the header lengths as it finds them in memory, and establishes it
-- where all of them happen to be at most 1700.
pub run-stream :
    (es : List Event) (s : Service)
    → IsRunning s
    → All Grants es
    → (t : Service) × (accepted : List Packet) × (run s es ≡ some (t, accepted))
      × IsRunning t
      × (stream t ≡ stream s ++ accepted)
unfolding run
run-stream [] s r ok = (s, [], refl, r, sym (append-nil _))
run-stream (e ∷ es) s r ok =
    let (t, first, here, running, same) = step_lem s e r ok.0 in
    let (u, more, there, last, still) = run-stream es t running ok.1 in
    (
      u,
      first ++ more,
      rw (here, there, run),
      last,
      still ∙ ap (λ l. l ++ more) same ∙ append_assoc (stream s) first more,
    )
