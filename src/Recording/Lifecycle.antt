-- ===== src/Recording/Lifecycle.antt =====
-- The life of a recording: its flags and its writer through a history (src/nic_monitor_pcap.c).
use ltntstools.Base.{
  ◌≡◌, ◌∙◌, inl, inr, Bool, true, false, not, ◌&&◌, List, [], ◌∷◌, arith, if◌then◌else◌, Bool-cases,
}
use ltntstools.Item.{Flag, DiscoveredItem, is_set}
use ltntstools.Item.Flags.{is_set-state_set, is_set-state_clr, same}
use ltntstools.Selection.{turn_on, record_toggle, abort}
use ltntstools.Recording.{
  Recorder, Options, Disk, Outcome, goes_on, returns, exits, fault, ◌>>=◌, clear_flags, stop,
  start_flags, only_pcap, start, check_space, write_pcap, write_ts, process, Event, toggled,
  aborted, packet, step, run,
}

recording : DiscoveredItem → Bool
recording e = is_set e Flag.pcap_recording

recording-clear_flags :
    (e : DiscoveredItem)
    → (is_set (clear_flags e) Flag.pcap_recording ≡ false)
      × (is_set (clear_flags e) Flag.pcap_record_start ≡ false)
      × (is_set (clear_flags e) Flag.pcap_record_stop ≡ false)
unfolding clear_flags same
recording-clear_flags e = (simp is_set-state_clr, simp is_set-state_clr, simp is_set-state_clr)

recording-start_flags :
    (e : DiscoveredItem)
    → (is_set (start_flags e) Flag.pcap_recording ≡ true)
      × (is_set (start_flags e) Flag.pcap_record_start ≡ false)
      × (is_set (start_flags e) Flag.pcap_record_stop ≡ is_set e Flag.pcap_record_stop)
unfolding start_flags same
recording-start_flags e = (
  simp (is_set-state_set, is_set-state_clr),
  simp (is_set-state_set, is_set-state_clr),
  simp (is_set-state_set, is_set-state_clr),
)

-- Recording if and only if there is a writer; a fault is excluded.
abbrev pub HasWriter : Outcome → Type 0
HasWriter (goes_on r) = is_set r.item Flag.pcap_recording ≡ r.writer
HasWriter (returns r) = is_set r.item Flag.pcap_recording ≡ r.writer
HasWriter exits = Unit {0}
HasWriter fault = ⊥

>>=-HasWriter :
    (m : Outcome) (f : Recorder → Outcome)
    → HasWriter m
    → ((r : Recorder) → is_set r.item Flag.pcap_recording ≡ r.writer → HasWriter (f r))
    → HasWriter (m >>= f)
>>=-HasWriter (goes_on r) f h k = k r h
>>=-HasWriter (returns r) f h k = h
>>=-HasWriter exits f h k = tt
>>=-HasWriter fault f h k = h

recording-check_space :
    (r : Recorder) (skip : Bool) (d : Disk)
    → (is_set (check_space skip d r).item Flag.pcap_recording ≡ is_set r.item Flag.pcap_recording)
      × (is_set (check_space skip d r).item Flag.pcap_record_start
          ≡ is_set r.item Flag.pcap_record_start)
      × ((check_space skip d r).writer ≡ r.writer)
      × ((check_space skip d r).record_as_ts ≡ r.record_as_ts)
unfolding check_space same
recording-check_space r skip d = ground (
  arith,
  is_set-state_set r.item Flag.pcap_record_stop Flag.pcap_recording,
  is_set-state_set r.item Flag.pcap_record_stop Flag.pcap_record_start,
)

module _ (r : Recorder) (h : is_set r.item Flag.pcap_recording ≡ r.writer) where
  stop-HasWriter : HasWriter (stop r)
  unfolding stop
  stop-HasWriter = elim (Bool-cases (is_set r.item Flag.pcap_record_stop)) [
    | inl s ↦ rw (s, stop) (recording-clear_flags r.item).0
    | inr g ↦ rw (g, stop) h
  ]

  start-HasWriter : (o : Options) (d : Disk) → HasWriter (start o d r)
  unfolding start
  start-HasWriter o d = elim (Bool-cases (is_set r.item Flag.pcap_record_start)) [
    | inr g ↦ rw (g, start) h
    | inl s ↦ elim (Bool-cases d.alloc_ok) [
      | inl a ↦ rw (s, a, start) (recording-start_flags r.item).0
      | inr a ↦ rw (s, a, start) tt
    ]
  ]

  write_pcap-HasWriter : (o : Options) (d : Disk) → HasWriter (write_pcap o d r)
  unfolding write_pcap
  write_pcap-HasWriter o d = ground (arith, recording-check_space r o.skip_free_space_check d)

  write_ts-HasWriter : (d : Disk) → HasWriter (write_ts d r)
  unfolding write_ts
  write_ts-HasWriter d = ground (arith, recording-check_space r false d)

process-HasWriter :
    (o : Options) (d : Disk) (r : Recorder)
    → is_set r.item Flag.pcap_recording ≡ r.writer
    → HasWriter (process o d r)
unfolding process
process-HasWriter o d r h = >>=-HasWriter (stop r) _ (stop-HasWriter r h) λ a ha.
    >>=-HasWriter (start o d a) _ (start-HasWriter a ha o d) λ b hb.
      >>=-HasWriter (write_pcap o d b) _ (write_pcap-HasWriter b hb o d)
        λ c hc. write_ts-HasWriter c hc d

-- The operator's keys do not touch the recording flag.
recording-record_toggle :
    (e : DiscoveredItem)
    → is_set (record_toggle e) Flag.pcap_recording ≡ is_set e Flag.pcap_recording
unfolding record_toggle same
recording-record_toggle e = ground (
  arith,
  is_set-state_set e Flag.pcap_record_stop Flag.pcap_recording,
  is_set-state_set e Flag.pcap_record_start Flag.pcap_recording,
)

recording-abort :
    (e : DiscoveredItem) → is_set (abort e) Flag.pcap_recording ≡ is_set e Flag.pcap_recording
unfolding abort same
recording-abort e = ground (
  arith,
  is_set-state_set e Flag.pcap_record_stop Flag.pcap_recording,
  is_set-state_set e Flag.stream_forward_stop Flag.pcap_recording,
  is_set-state_set (turn_on Flag.pcap_record_stop e) Flag.stream_forward_stop Flag.pcap_recording,
)

step-HasWriter :
    (o : Options) (r : Recorder) (e : Event)
    → is_set r.item Flag.pcap_recording ≡ r.writer
    → HasWriter (step o r e)
unfolding step
step-HasWriter o r toggled h = recording-record_toggle r.item ∙ h
step-HasWriter o r aborted h = recording-abort r.item ∙ h
step-HasWriter o r (packet d) h = process-HasWriter o d r h

-- From a state in which a stream has a writer exactly when it is being recorded, whatever the
-- operator presses and whatever the disk answers, in any order: no packet is written through a NULL
-- writer, and unless the process ends the stream has a writer exactly when it is being recorded.
pub run-HasWriter :
    (o : Options) (es : List Event) (r : Recorder)
    → is_set r.item Flag.pcap_recording ≡ r.writer
    → HasWriter (run o r es)
unfolding run
run-HasWriter o [] r h = h
run-HasWriter o (e ∷ es) r h = after (step o r e) (step-HasWriter o r e h) (run-HasWriter o es)
  where
    after :
        (m : Outcome)
        → HasWriter m
        → ((r' : Recorder)
            → is_set r'.item Flag.pcap_recording ≡ r'.writer
            → HasWriter (run o r' es))
        → HasWriter (elim m [
          | goes_on r' ↦ run o r' es
          | returns r' ↦ run o r' es
          | exits ↦ exits
          | fault ↦ fault
        ])
    after (goes_on r') k f = f r' k
    after (returns r') k f = f r' k
    after exits k f = tt
    after fault k f = k

-- A stop that was asked for takes effect at the next packet, also against a start that is still
-- waiting: all three flags are cleared, the writer is freed, and nothing is written.
pub process_stops :
    (o : Options) (d : Disk) (r : Recorder)
    → is_set r.item Flag.pcap_record_stop ≡ true
    → (process o d r ≡ goes_on (record r { item = clear_flags r.item; writer = false }))
      × (is_set (clear_flags r.item) Flag.pcap_recording ≡ false)
      × (is_set (clear_flags r.item) Flag.pcap_record_start ≡ false)
      × (is_set (clear_flags r.item) Flag.pcap_record_stop ≡ false)
unfolding process stop start write_pcap write_ts
process_stops o d r asked =
    let (a, b, c) = recording-clear_flags r.item in (ground (arith, a, b), a, b, c)

module _ (o : Options) (d : Disk) (r : Recorder) where
  as_ts : Bool
  as_ts = if only_pcap r.item.payload_type then false else o.record_as_ts

  started : Recorder
  started = record r { item = start_flags r.item; writer = true; record_as_ts = as_ts }

  ended : Recorder
  ended = check_space (not as_ts && o.skip_free_space_check) d started

  process_started :
      is_set r.item Flag.pcap_record_start ≡ true
      → is_set r.item Flag.pcap_record_stop ≡ false
      → d.alloc_ok ≡ true
      → d.object_ok ≡ true
      → process o d r ≡ goes_on ended
  unfolding process stop start write_pcap write_ts started ended as_ts
  process_started asked going alloc object =
      ground (
        arith,
        recording-start_flags r.item,
        recording-check_space started o.skip_free_space_check d,
      )

  -- A start that was asked for takes effect at the next packet, if a writer and a buffer are to be
  -- had and no stop is waiting: the stream is being recorded with a writer, as PCAP if it is no
  -- transport stream and as the option says if it is one.
  pub process_starts :
      is_set r.item Flag.pcap_record_start ≡ true
      → is_set r.item Flag.pcap_record_stop ≡ false
      → d.alloc_ok ≡ true
      → d.object_ok ≡ true
      → (r' : Recorder) × (process o d r ≡ goes_on r')
        × (is_set r'.item Flag.pcap_recording ≡ true)
        × (is_set r'.item Flag.pcap_record_start ≡ false)
        × (r'.writer ≡ true)
        × (r'.record_as_ts ≡ (not (only_pcap r.item.payload_type) && o.record_as_ts))
  unfolding ended started as_ts
  process_starts asked going alloc object =
      let (a, b, c, e) = recording-check_space started (not as_ts && o.skip_free_space_check) d in
      let (f, g, _) = recording-start_flags r.item in
      (ended, process_started asked going alloc object, a ∙ f, b ∙ g, c, e ∙ ground arith)
