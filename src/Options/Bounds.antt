-- ===== src/Options/Bounds.antt =====
-- What holds of the settings that the options leave.
use ltntstools.Base.{
  ◌≡◌, refl, ℕ, ◌*◌, ◌^◌, ◌≤◌, ◌⊎◌, inl, inr, false, not, ◌&&◌, ◌||◌, some, List, [], ◌∷◌, arith,
  length, length-set, ◌==◌, if◌then◌else◌, Bool-cases, Option-cases,
}
use ltntstools.Document.{Line}
use ltntstools.Statistics.{ℤ, pos, leb_ℤ}
use ltntstools.Statistics.Marks.{◌≤ℤ◌, ≤ℤ_refl}
use ltntstools.Options.{
  InputType, Settings, Argument, Host, Outcome, goes_on, exits, overflows, at_least, defaults, loop,
  is_device, input_name, check_input, input, forwarder, metadata, reporting, long_option,
  number_option, text_option, flag_option, option, options, require_input, process_arguments,
}

-- The ranges that the options promise. The number of a PID is at most 0x1fff or, as an int,
-- negative.
pub record InRange (s : Settings) : Type 0 where
  pub buffer_size : pos (2 * 1048576) ≤ℤ s.buffer_size
  pub snaplen : pos 2048 ≤ℤ s.snaplen
  pub file_write_interval : pos 1 ≤ℤ s.file_write_interval
  pub targets : length s.url_forwards ≡ 3
  pub place : s.forwarder_idx ≤ 3
  pub pid : (s.gather_h264_metadata_pid ≤ 0x1fff) ⊎ (2 ^ 31 ≤ s.gather_h264_metadata_pid)

at_least-le : (low x : ℤ) → low ≤ℤ at_least low x
unfolding at_least
at_least-le low x = elim (Bool-cases (leb_ℤ low x)) [
  | inl e ↦ rw (e, at_least) e
  | inr e ↦ rw (e, at_least) (≤ℤ_refl low)
]

module _ (host : Host) where
  number_option-InRange :
      (ch : ℕ) (s t : Settings) (optarg : Line)
      → number_option host ch s optarg ≡ some t
      → InRange s
      → InRange t
  unfolding number_option
  number_option-InRange ch s t optarg done r = ground (
    arith,
    at_least-le (pos (2 * 1048576)) (host.atoi optarg),
    at_least-le (pos 2048) (host.atoi optarg),
    at_least-le (pos 1) (host.atoi optarg),
  )

  text_option-InRange :
      (ch : ℕ) (s t : Settings) (optarg : Line)
      → text_option host ch s optarg ≡ some t
      → InRange s
      → InRange t
  unfolding text_option
  text_option-InRange ch s t optarg done r = ground arith

  flag_option-InRange :
      (ch : ℕ) (s t : Settings) → flag_option host ch s ≡ some t → InRange s → InRange t
  unfolding flag_option
  flag_option-InRange ch s t done r = ground arith

  forwarder-InRange :
      (s t : Settings) (optarg : Line) → forwarder host s optarg ≡ goes_on t → InRange s → InRange t
  unfolding forwarder
  forwarder-InRange s t optarg done r = elim (Option-cases (host.scan_url optarg)) [
    | inl e ↦ ground arith
    | inr (target, e) ↦ ground (arith, length-set s.url_forwards s.forwarder_idx target)
  ]

  metadata-InRange :
      (s t : Settings) (optarg : Line) → metadata host s optarg ≡ goes_on t → InRange s → InRange t
  unfolding metadata
  metadata-InRange s t optarg done r = elim (Option-cases (host.scan_hex optarg)) [
    | inl e ↦ ground arith
    | inr (pid, e) ↦ ground arith
  ]

  long_option-InRange :
      (index : ℕ) (s t : Settings) (optarg : Line)
      → long_option host index s optarg ≡ goes_on t
      → InRange s
      → InRange t
  unfolding long_option reporting
  long_option-InRange index s t optarg done r =
      ground (arith, forwarder-InRange s t optarg, metadata-InRange s t optarg)

  check_input-InRange :
      (k : InputType) (s t : Settings) (name : Line)
      → check_input host s name k ≡ goes_on t
      → InRange s
      → InRange t
  unfolding check_input
  check_input-InRange InputType.mpegts_avdevice s t name done r = ground arith
  check_input-InRange InputType.pcap s t name done r = ground arith
  check_input-InRange InputType.mpegts_file s t name done r = ground arith

  input-InRange :
      (s t : Settings) (optarg : Line) → input host s optarg ≡ goes_on t → InRange s → InRange t
  unfolding input
  input-InRange s t optarg done r =
      let named : Settings = record s {
        ifname = some (input_name host optarg);
        file_loops = not (is_device host optarg) && host.strstr optarg loop;
        iftype = if is_device host optarg then InputType.mpegts_avdevice else s.iftype;
      } in
      check_input-InRange named.iftype named t (input_name host optarg) done (record {
        buffer_size = r.buffer_size;
        snaplen = r.snaplen;
        file_write_interval = r.file_write_interval;
        targets = r.targets;
        place = r.place;
        pid = r.pid;
      })

  letter-InRange :
      (a : Argument) (s t : Settings)
      → option host a s ≡ goes_on t
      → (a.ch == b'@' || a.ch == b'h' || a.ch == b'?') ≡ false
      → (a.ch == b'i') ≡ false
      → InRange s
      → InRange t
  unfolding option
  letter-InRange a s t done no_help no_input r =
      elim (Option-cases (number_option host a.ch s a.optarg)) [
        | inr (u, e) ↦
            number_option-InRange a.ch s t a.optarg (ground (arith, done, no_help, no_input, e)) r
        | inl e ↦ elim (Option-cases (text_option host a.ch s a.optarg)) [
          | inr (u, f) ↦
              text_option-InRange a.ch s t a.optarg (ground (arith, done, no_help, no_input, e, f))
                r
          | inl f ↦ elim (Option-cases (flag_option host a.ch s)) [
            | inr (u, g) ↦
                flag_option-InRange a.ch s t (ground (arith, done, no_help, no_input, e, f, g)) r
            | inl g ↦
                long_option-InRange a.index s t a.optarg
                  (ground (arith, done, no_help, no_input, e, f, g)) r
          ]
        ]
      ]

  option-InRange :
      (a : Argument) (s t : Settings) → option host a s ≡ goes_on t → InRange s → InRange t
  option-InRange a s t done r = elim (Bool-cases (a.ch == b'@' || a.ch == b'h' || a.ch == b'?')) [
    | inl help ↦ absurd (unfold option in ground (arith, done, help))
    | inr no_help ↦ elim (Bool-cases (a.ch == b'i')) [
      | inl i ↦ input-InRange s t a.optarg (unfold option in ground (arith, done, no_help, i)) r
      | inr no_input ↦ letter-InRange a s t done no_help no_input r
    ]
  ]

  options_from :
      (o : Outcome) (rest : List Argument) (t : Settings)
      → ((s : Settings) → o ≡ goes_on s → InRange s)
      → ((s : Settings) → options host rest s ≡ goes_on t → InRange s → InRange t)
      → (elim o [ goes_on s ↦ options host rest s | exits ↦ exits | overflows ↦ overflows ])
        ≡ goes_on t
      → InRange t
  options_from (goes_on s) rest t first later done = later s done (first s refl)
  options_from exits rest t first later done = absurd (cc)
  options_from overflows rest t first later done = absurd (cc)

  options-InRange :
      (args : List Argument) (s t : Settings)
      → options host args s ≡ goes_on t
      → InRange s
      → InRange t
  unfolding options
  options-InRange [] s t done r = ground (arith, done)
  options-InRange (a ∷ args) s t done r =
      options_from (option host a s) args t (λ u e. option-InRange a s u e r)
        (λ u. options-InRange args u t) done

  required :
      (o : Outcome) (t : Settings)
      → require_input host o ≡ goes_on t
      → (o ≡ goes_on t) × ((name : Line) × (t.ifname ≡ some name))
  unfolding require_input
  required (goes_on s) t done = elim (Option-cases s.ifname) [
    | inl e ↦ absurd (ground (arith, done, e))
    | inr (name, e) ↦ (ground (arith, done, e), (name, ground (arith, done, e)))
  ]
  required exits t done = absurd (cc)
  required overflows t done = absurd (cc)

  -- Where BUFSIZ of the C library is at least 2048 (C itself promises 256), whatever options are
  -- given, in any order and number: where the process goes on, and the name given to
  -- --http-json-reporting did not overflow the array it is copied into, after which nothing is said of
  -- the process, there is an input; the buffer has at least 2 MiB, a packet at least 2048 bytes, and the interval of the files
  -- is at least a second; of the three targets of the forwards none was written past the third; and
  -- the PID of the metadata is at most 0x1fff or, as an int, negative.
  pub process_arguments-InRange :
      (args : List Argument) (bufsiz : ℤ) (filter url : Line) (t : Settings)
      → pos 2048 ≤ℤ bufsiz
      → process_arguments host args (defaults bufsiz filter url) ≡ goes_on t
      → InRange t × ((name : Line) × (t.ifname ≡ some name))
  unfolding process_arguments defaults
  process_arguments-InRange args bufsiz filter url t big done =
      let start : Settings = defaults bufsiz filter url in
      let (went_on, input_given) = required (options host args start) t done in
      let first : InRange start = record {
        buffer_size = refl;
        snaplen = big;
        file_write_interval = refl;
        targets = refl;
        place = omega arith;
        pid = inl (omega arith);
      } in
      (options-InRange args start t went_on first, input_given)
