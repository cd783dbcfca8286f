-- ===== src/Smoother.antt =====
-- The thread of the bitrate smoother that reads, filters and hands on packets (thread_packet_rx and
-- packet_cb in src/bitrate_smoother.c). What libltntools does is a parameter: reading headers,
-- the stream model, the PMT. A read is of whole packets; a packet is its bytes. The calls of the
-- smoother are recorded in the context. What is printed is left out, and so is RTP, with which the
-- thread ends the process before its first read.
pub mod Passing
pub mod Safety
pub mod Relay
pub mod Loss
mod Tests
use ltntstools.Base.{
  ℕ, zero, suc, ◌+◌, ◌%◌, ◌^◌, bit_and, bit_or, Bool, true, false, not, ◌&&◌, Option, none, some,
  List, [], ◌∷◌, ◌++◌, ltb, leb, ◌==◌, if◌then◌else◌, get_elem?, set,
}

abbrev pub Packet : Type 0
Packet = List ℕ

-- ltntstools_pid, ltntstools_continuity_counter, ltntstools_isCCInError, ltntstools_tei_set, and
-- ltntstools_generateNullPacket with the packet that it overwrites; the first service of
-- ltntstools_pat_enum_services for a PMT, ltntstools_pmt_remove_es_for_pid, the model in which
-- that PMT has changed, ltntstools_pmt_create_packet_ts with the buffer that it writes to;
-- ltntstools_streammodel_alloc, _write with its flag of completeness, _query_model; and the PCR
-- PID of the first video service.
pub record Library : Type 1 where
  pub Stream : Type 0
  pub Model : Type 0
  pub Pmt : Type 0
  pub pid : Packet → ℕ
  pub continuity_counter : Packet → ℕ
  pub is_cc_in_error : Packet → ℕ → Bool
  pub tei_set : Packet → Bool
  pub null_packet : Packet → Packet
  pub enum_services : Model → ℕ → Option Pmt
  pub remove_es_for_pid : Pmt → ℕ → Pmt
  pub with_pmt : Model → Pmt → Model
  pub create_packet : Pmt → ℕ → ℕ → Packet → Packet
  pub streammodel_alloc : Option Stream
  pub streammodel_write : Stream → List Packet → Stream × Bool
  pub query_model : Stream → Option Model
  pub video_pcr_pid : Model → Option ℕ

-- struct ltntstools_pid_statistics_s, the fields that packet_cb writes.
pub record Statistics : Type 0 where
  pub enabled : Bool
  pub packet_count : ℕ
  pub last_cc : ℕ
  pub cc_errors : ℕ
  pub tei_errors : ℕ

-- struct tool_context_s and the variables of the thread. `smoothers` are the PCR PIDs of the calls
-- of smoother_pcr_alloc, of which the last is the smoother in use, and `written` the packets of
-- the calls of smoother_pcr_write.
pub record Context (lib : Library) : Type 0 where
  pub filter : ℕ → Bool
  pub spts_pmt_pid : ℕ
  pub spts_pmt_pkt_new : Packet
  pub spts_pmt_sm : Option lib.Model
  pub pcr_pid : ℕ
  pub sm : Option lib.Stream
  pub smcomplete : Bool
  pub terminate_los_seconds : ℕ
  pub running : Bool
  pub i_stream : ℕ → Statistics
  pub last_packet_time : ℕ
  pub now : ℕ
  pub smoothers : List ℕ
  pub written : List Packet

-- `p[i]`
abbrev pub byte : Packet → ℕ → ℕ
byte p i = elim (get_elem? p i) [ none ↦ 0 | some b ↦ b ]

-- The byte with the continuity counter, from the bytes of the made and of the current packet.
abbrev pub patched : ℕ → ℕ → ℕ
patched new cur = bit_or (bit_and new 0xf0) (bit_and cur 0x0f)

abbrev pub is_nil {ℓ} : {A : Type ℓ} → List A → Bool
is_nil [] = true
is_nil (x ∷ xs) = false

pub data Read : Type 0 where
  again ended empty : Read
  packets : List Packet → Read

module _ (lib : Library) where
  -- The loop over all PIDs that takes the blocked ones out of the PMT, from the PID `i` for `n`.
  unfoldable pub remove_blocked : (ℕ → Bool) → ℕ → ℕ → lib.Pmt → lib.Pmt
  remove_blocked filter i zero pmt = pmt
  remove_blocked filter i (suc n) pmt =
      remove_blocked filter (i + 1) n (if filter i then pmt else lib.remove_es_for_pid pmt i)

  -- The new PMT, made from the model once there is one.
  unfoldable pub make_pmt : Context lib → Packet → Context lib
  make_pmt ctx p = elim ctx.spts_pmt_sm [
    | none ↦ ctx
    | some model ↦
        if byte ctx.spts_pmt_pkt_new 0 == 0x47
        then ctx
        else elim (lib.enum_services model ctx.spts_pmt_pid) [
          | none ↦ ctx
          | some found ↦
              let pmt = remove_blocked ctx.filter 0 0x2000 found in
              record ctx {
                spts_pmt_sm = some (lib.with_pmt model pmt);
                spts_pmt_pkt_new =
                    lib.create_packet pmt ctx.spts_pmt_pid (lib.continuity_counter p)
                      ctx.spts_pmt_pkt_new;
              }
        ]
  ]

  -- The filter on one packet of the buffer.
  unfoldable pub filter_packet : Context lib → Packet → Context lib × Packet
  unfolding make_pmt
  filter_packet ctx buf =
      let pidnr = lib.pid buf in
      let p = if ctx.filter pidnr then buf else lib.null_packet buf in
      let new = ctx.spts_pmt_pkt_new in
      let patch = set new 3 (patched (byte new 3) (byte p 3)) in
      if not (ctx.spts_pmt_pid == 0) && (ctx.spts_pmt_pid == pidnr && byte new 0 == 0x47)
      then (record ctx { spts_pmt_pkt_new = patch }, patch)
      else if not (ctx.spts_pmt_pid == 0) && ctx.spts_pmt_pid == pidnr
      then (make_pmt ctx p, p)
      else (ctx, p)

  unfoldable pub filter_packets : Context lib → List Packet → Context lib × List Packet
  unfolding filter_packet
  filter_packets ctx [] = (ctx, [])
  filter_packets ctx (p ∷ rest) =
      let (ctx', q) = filter_packet ctx p in
      let (last, qs) = filter_packets ctx' rest in (last, q ∷ qs)

  -- packet_cb on one packet.
  unfoldable pub count_packet : (ℕ → Statistics) → Packet → ℕ → Statistics
  count_packet stats p k =
      let pid = stats (lib.pid p) in
      let count = (pid.packet_count + 1) % 2 ^ 64 in
      let is_error =
        lib.is_cc_in_error p pid.last_cc && (ltb 1 count && not (lib.pid p == 0x1fff)) in
      if lib.pid p == k
      then record {
        enabled = true;
        packet_count = count;
        last_cc = lib.continuity_counter p;
        cc_errors = if is_error then (pid.cc_errors + 1) % 2 ^ 64 else pid.cc_errors;
        tei_errors = if lib.tei_set p then (pid.tei_errors + 1) % 2 ^ 64 else pid.tei_errors;
      }
      else stats k

  unfoldable pub packet_cb : (ℕ → Statistics) → List Packet → ℕ → Statistics
  unfolding count_packet
  packet_cb stats [] = stats
  packet_cb stats (p ∷ rest) = packet_cb (count_packet stats p) rest

  -- smoother_pcr_alloc
  unfoldable pub smoother_pcr_alloc : Context lib → Context lib
  smoother_pcr_alloc ctx = record ctx { smoothers = ctx.pcr_pid ∷ ctx.smoothers }

  -- The stream model or the smoother is allocated where it is missing. `none` is exit(1).
  unfoldable pub allocate : Context lib → Option (Context lib)
  unfolding smoother_pcr_alloc
  allocate ctx = elim ctx.sm [
    | some s ↦ some ctx
    | none ↦
        if ctx.pcr_pid == 0
        then elim lib.streammodel_alloc [ none ↦ none | some s ↦ some (record ctx { sm = some s }) ]
        else if is_nil ctx.smoothers
        then some (smoother_pcr_alloc ctx)
        else some ctx
  ]

  -- The model is complete: the PCR PID of the first video service, and the smoother.
  unfoldable pub use_model : Context lib → lib.Model → Context lib
  unfolding smoother_pcr_alloc
  use_model ctx pat =
      let pcr : ℕ = elim (lib.video_pcr_pid pat) [ none ↦ ctx.pcr_pid | some k ↦ k ] in
      let found = record ctx { pcr_pid = pcr } in
      let ready = if pcr == 0 then record found { running = false } else smoother_pcr_alloc found in
      record ready { spts_pmt_sm = some pat }

  unfoldable pub after_write : Context lib → lib.Stream × Bool → Context lib
  unfolding use_model
  after_write ctx (s, complete) =
      let wrote = record ctx { sm = some s; smcomplete = complete } in
      if complete
      then elim (lib.query_model s) [ none ↦ wrote | some pat ↦ use_model wrote pat ]
      else wrote

  unfoldable pub write_model : Context lib → List Packet → Context lib
  unfolding after_write
  write_model ctx ps = elim ctx.sm [
    | none ↦ ctx
    | some s ↦
        if not ctx.smcomplete && ctx.pcr_pid == 0
        then after_write ctx (lib.streammodel_write s ps)
        else ctx
  ]

  -- smoother_pcr_write, where there is a smoother.
  unfoldable pub hand_on : Context lib → List Packet → Context lib
  hand_on ctx ps = if is_nil ctx.smoothers then ctx else record ctx { written = ctx.written ++ ps }

  unfoldable pub receive : Context lib → List Packet → Option (Context lib)
  unfolding filter_packets allocate write_model packet_cb hand_on
  receive ctx buf =
      let (filtered, ps) = filter_packets ctx buf in
      elim (allocate filtered) [
        | none ↦ none
        | some ready ↦
            let modelled = write_model ready ps in
            let counted = record modelled {
              last_packet_time = modelled.now;
              i_stream = packet_cb modelled.i_stream ps;
            } in
            some (hand_on counted ps)
      ]

  -- What a read gives: nothing for now, an error or the end, no bytes, or packets.
  unfoldable pub hear : Context lib → Read → Option (Context lib)
  unfolding receive
  hear ctx again = some ctx
  hear ctx ended = some (record ctx { running = false })
  hear ctx empty = some ctx
  hear ctx (packets buf) = receive ctx buf

  -- One round of the loop: the test for a loss of the signal, and the read with the time after it.
  unfoldable pub round : Context lib → Read → ℕ → Option (Context lib)
  unfolding hear
  round ctx read time =
      if not (ctx.terminate_los_seconds == 0)
        && leb (ctx.last_packet_time + ctx.terminate_los_seconds) ctx.now
      then none
      else hear (record ctx { now = time }) read

  -- The rounds until the thread is told to end, or until `none`, the end of the process.
  unfoldable pub thread_packet_rx : Context lib → List (Read × ℕ) → Option (Context lib)
  unfolding round
  thread_packet_rx ctx [] = some ctx
  thread_packet_rx ctx ((read, time) ∷ rest) = elim (round ctx read time) [
    | none ↦ none
    | some after ↦ thread_packet_rx after rest
  ]
