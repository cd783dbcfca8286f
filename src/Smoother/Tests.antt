-- ===== src/Smoother/Tests.antt =====
-- Packets of four bytes, of which the second is the PID.
use ltntstools.Base.{
  ℕ, ◌+◌, ◌≡◌, refl, Bool, true, false, not, none, some, List, [], ◌∷◌, ◌++◌, ◌==◌, arith, set,
}
use ltntstools.Smoother.{
  Packet, Library, Context, Statistics, Read, again, empty, packets, byte, thread_packet_rx,
}
use ltntstools.Smoother.Passing.{Laws, Passed}
use ltntstools.Smoother.Safety.{OnSome, IsSafe, thread-IsSafe}
use ltntstools.Smoother.Relay.{sent, thread-Passed}
use ltntstools.Smoother.Loss.{silence_ends}

abbrev lib : Library
lib = record {
  Stream = Unit {0};
  Model = Unit {0};
  Pmt = Unit {0};
  pid = λ p. byte p 1;
  continuity_counter = λ p. byte p 3;
  is_cc_in_error = λ p cc. not (byte p 3 == cc + 1);
  tei_set = λ p. false;
  null_packet = λ p. 0x47 ∷ 0x1fff ∷ 0 ∷ 0 ∷ [];
  enum_services = λ m k. some tt;
  remove_es_for_pid = λ t k. t;
  with_pmt = λ m t. m;
  create_packet = λ t k cc p. 0x47 ∷ k ∷ 1 ∷ cc ∷ [];
  streammodel_alloc = some tt;
  streammodel_write = λ s ps. (s, true);
  query_model = λ s. some tt;
  video_pcr_pid = λ m. some 0x31;
}

pid-set_lem : (p : Packet) (v : ℕ) → byte (set p 3 v) 1 ≡ byte p 1
pid-set_lem [] v = refl
pid-set_lem (a ∷ []) v = refl
pid-set_lem (a ∷ b ∷ p) v = refl

laws : Laws lib
laws = record {
  pid-null = λ p. refl;
  pid-create = λ t k cc p new made. refl;
  pid-set = pid-set_lem;
}

abbrev blank : Statistics
blank = record { enabled = false; packet_count = 0; last_cc = 0; cc_errors = 0; tei_errors = 0 }

-- The PID 50 is blocked and 48 is that of the PMT.
abbrev blocks_50 : ℕ → Bool
blocks_50 k = not (k == 50)

abbrev start : ℕ → ℕ → Context lib
start pcr los = record {
  filter = blocks_50;
  spts_pmt_pid = 48;
  spts_pmt_pkt_new = 0 ∷ 0 ∷ 0 ∷ 0 ∷ [];
  spts_pmt_sm = none;
  pcr_pid = pcr;
  sm = none;
  smcomplete = false;
  terminate_los_seconds = los;
  running = true;
  i_stream = λ k. blank;
  last_packet_time = 100;
  now = 100;
  smoothers = [];
  written = [];
}

abbrev reads : List (Read × ℕ)
reads =
    (again, 100)
    ∷ (packets ((0x47 ∷ 49 ∷ 0 ∷ 1 ∷ []) ∷ (0x47 ∷ 50 ∷ 0 ∷ 1 ∷ []) ∷ []), 101)
    ∷ (packets ((0x47 ∷ 48 ∷ 0 ∷ 7 ∷ []) ∷ []), 102)
    ∷ (packets ((0x47 ∷ 48 ∷ 0 ∷ 8 ∷ []) ∷ []), 102)
    ∷ []

thread-IsSafe_example :
    OnSome lib (IsSafe lib laws blocks_50 48) (thread_packet_rx lib (start 0 0) reads)
thread-IsSafe_example =
    thread-IsSafe lib laws blocks_50 48 reads (start 0 0) refl refl (λ e. absurd (omega (arith, e)))
      refl refl

thread-Passed_example :
    OnSome lib
      (λ after. Passed lib blocks_50 48 (sent reads) after.written)
      (thread_packet_rx lib (start 49 0) reads)
thread-Passed_example =
    thread-Passed lib laws blocks_50 48 reads (start 49 0) refl refl
      (λ e. absurd (omega (arith, e))) refl refl refl (omega arith)

silence_ends_example :
    thread_packet_rx lib (start 0 5) ((again, 103) ∷ [] ++ (empty, 105) ∷ (again, 105) ∷ []) ≡ none
silence_ends_example =
    silence_ends lib ((again, 103) ∷ []) [] empty again 105 105 (start 0 5) (omega arith) (tt, tt)
      tt (omega arith)

-- The stream model is complete with the first buffer. The first PMT passes as it is, and the new one is
-- made from it; the second is replaced, with its own counter.
second_pmt_replaced :
    elim (thread_packet_rx lib (start 0 0) reads) as (λ o. List Packet) [
      | none ↦ []
      | some c ↦ c.written
    ]
    ≡ (0x47 ∷ 49 ∷ 0 ∷ 1 ∷ [])
      ∷ (0x47 ∷ 0x1fff ∷ 0 ∷ 0 ∷ [])
      ∷ (0x47 ∷ 48 ∷ 0 ∷ 7 ∷ [])
      ∷ (0x47 ∷ 48 ∷ 1 ∷ 8 ∷ [])
      ∷ []
unfolding thread_packet_rx
second_pmt_replaced = refl
