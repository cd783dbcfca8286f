-- ===== src/Threads/EndTime.antt =====
-- When the capture thread leaves its loop.
use ltntstools.Base.{
  ◌≡◌, ◌≢◌, refl, sym, ap, subst, ◌∙◌, inl, inr, ◌+◌, ◌≤◌, true, false, List, [], ◌∷◌, ◌++◌, arith,
  ◌==◌, Bool-cases, All,
}
use ltntstools.Options.{InputType, pcap, mpegts_file, mpegts_avdevice}
use ltntstools.Threads.{
  PcapThread, Round, again, after_input, device_round, input_round, pcap_rounds,
}

-- The loop is left only with the program told to end.
abbrev pub IsEnding : PcapThread → Type 0
IsEnding t = t.left ≡ true → t.running ≡ false

after_input-IsEnding : (t : PcapThread) (r : Round) → t.left ≡ false → IsEnding (after_input t r)
unfolding after_input
after_input-IsEnding t r in_loop = ground arith

after_input-keeps :
    (t : PcapThread) (r : Round)
    → ((after_input t r).iftype ≡ t.iftype) × ((after_input t r).end_time ≡ t.end_time)
unfolding after_input
after_input-keeps t r = ground arith

after_input_late :
    (t : PcapThread) (r : Round)
    → t.end_time ≢ 0
    → t.end_time ≤ r.now
    → ((after_input t r).left ≡ true) × ((after_input t r).running ≡ false)
unfolding after_input
after_input_late t r limit late = ground arith

abbrev pub NotDevice : InputType → Type 0
NotDevice mpegts_avdevice = ⊥
NotDevice _ = Unit

-- What one round leaves of a thread in its loop.
abbrev Lasts : PcapThread → Round → PcapThread → Type 0
Lasts t r after =
    (after.iftype ≡ t.iftype)
    × (after.end_time ≡ t.end_time)
    × IsEnding after
    × (t.end_time ≢ 0 → t.end_time ≤ r.now → (after.left ≡ true) × (after.running ≡ false))

after_input-Lasts : (t : PcapThread) (r : Round) → t.left ≡ false → Lasts t r (after_input t r)
after_input-Lasts t r in_loop =
    let (same_type, same_end) = after_input-keeps t r in
    (same_type, same_end, after_input-IsEnding t r in_loop, after_input_late t r)

input_round-Lasts :
    (k : InputType) (t : PcapThread) (r : Round)
    → NotDevice k
    → t.left ≡ false
    → Lasts t r (input_round k t r)
unfolding input_round
input_round-Lasts pcap t r n in_loop = elim (Bool-cases (r.processed == 0)) [
  | inl missed ↦
      rw missed (after_input-Lasts (record t { dispatch_miss = t.dispatch_miss + 1 }) r in_loop)
  | inr some_handled ↦ rw some_handled (after_input-Lasts t r in_loop)
]
input_round-Lasts mpegts_file t r n in_loop = after_input-Lasts t r in_loop
input_round-Lasts mpegts_avdevice t r n in_loop = elim n [ ]

pcap_rounds_left : (t : PcapThread) (rounds : List Round) → t.left ≡ true → pcap_rounds t rounds ≡ t
unfolding pcap_rounds
pcap_rounds_left t [] h = refl
pcap_rounds_left t (r ∷ rest) h = ground arith

pub pcap_rounds_on :
    (t : PcapThread) (r : Round) (rest : List Round)
    → t.left ≡ false
    → pcap_rounds t (r ∷ rest) ≡ pcap_rounds (input_round t.iftype t r) rest
unfolding pcap_rounds
pcap_rounds_on t r rest h = ground arith

-- The loop was left with the program told to end.
abbrev pub HasEnded : PcapThread → Type 0
HasEnded t = (t.left ≡ true) × (t.running ≡ false)

-- For an interface or a file, with an end time: once a round has come to the end time, the thread
-- has left its loop and told the program to end, whatever came before and would come after.
pub ends_in_time :
    (rounds rest : List Round) (r : Round) (t : PcapThread)
    → NotDevice t.iftype
    → IsEnding t
    → t.end_time ≢ 0
    → t.end_time ≤ r.now
    → HasEnded (pcap_rounds t (rounds ++ r ∷ rest))
ends_in_time [] rest r t kind ending limit late = elim (Bool-cases t.left) [
  | inl left ↦ subst HasEnded (sym (pcap_rounds_left t (r ∷ rest) left)) (left, ending left)
  | inr going ↦
      let after = input_round t.iftype t r in
      let (same_type, same_end, ends, stops) = input_round-Lasts t.iftype t r kind going in
      let ended = stops limit late in
      subst HasEnded (sym (pcap_rounds_on t r rest going ∙ pcap_rounds_left after rest ended.0))
        ended
]
ends_in_time (x ∷ rounds) rest r t kind ending limit late = elim (Bool-cases t.left) [
  | inl left ↦
      subst HasEnded (sym (pcap_rounds_left t (x ∷ (rounds ++ r ∷ rest)) left)) (left, ending left)
  | inr going ↦
      let after = input_round t.iftype t x in
      let (same_type, same_end, ends, stops) = input_round-Lasts t.iftype t x kind going in
      subst HasEnded (sym (pcap_rounds_on t x (rounds ++ r ∷ rest) going)) (
        ends_in_time rounds rest r after (subst NotDevice (sym same_type) kind) ends
          (λ z. limit (sym same_end ∙ z)) (omega (arith, same_end, late)))
]

silent_round :
    (k : InputType) (t : PcapThread) (r : Round)
    → k ≡ mpegts_avdevice
    → r.read ≡ again
    → input_round k t r ≡ t
unfolding input_round device_round
silent_round pcap t r device silent = cc
silent_round mpegts_file t r device silent = cc
silent_round mpegts_avdevice t r device silent = ground arith

-- For a device that has nothing to read, no round changes anything, whatever the end time is.
pub silent_device_stays :
    (rounds : List Round) (t : PcapThread)
    → t.iftype ≡ mpegts_avdevice
    → All (λ r. r.read ≡ again) rounds
    → pcap_rounds t rounds ≡ t
unfolding pcap_rounds
silent_device_stays [] t device silent = refl
silent_device_stays (r ∷ rest) t device silent = elim (Bool-cases t.left) [
  | inl left ↦ pcap_rounds_left t (r ∷ rest) left
  | inr going ↦
      pcap_rounds_on t r rest going
      ∙ ap (λ u. pcap_rounds u rest) (silent_round t.iftype t r device silent.0)
      ∙ silent_device_stays rest t device silent.1
]
