-- ===== src/Options.antt =====
-- The options of nic_monitor: processArguments and the defaults before it (src/nic_monitor.c), from
-- the options that getopt_long finds on. What the C library and the system answer is a parameter.
-- What is printed is left out; the options that only print end the process.
pub mod Bounds
mod Tests
use ltntstools.Base.{
  ℕ, ◌+◌, ◌-◌, ◌*◌, ◌^◌, Bool, true, false, not, ◌&&◌, ◌||◌, Option, none, some, List, [], ◌∷◌, ltb,
  leb, ◌==◌, if◌then◌else◌, length, set, take,
}
use ltntstools.Document.{Line}
use ltntstools.Statistics.{ℤ, pos, leb_ℤ}

pub data InputType : Type 0 where
  pcap mpegts_file mpegts_avdevice : InputType

-- A target of the forwards.
pub record Target : Type 0 where
  pub addr : Line
  pub port : ℤ

-- The fields that the options set.
pub record Settings : Type 0 where
  pub buffer_size : ℤ
  pub file_prefix : Option Line
  pub pcap_filter : Line
  pub ifname : Option Line
  pub iftype : InputType
  pub file_loops : Bool
  pub iat_max : ℤ
  pub file_write_interval : ℤ
  pub end_time : Option ℤ
  pub verbose : ℕ
  pub monitor : Bool
  pub recording_dir : Option Line
  pub record_with_segments : Bool
  pub snaplen : ℤ
  pub detailed_file_prefix : Option Line
  pub record_as_ts : Bool
  pub automatically_record_streams : Bool
  pub skip_free_space_check : Bool
  pub url_forwards : List Target
  pub forwarder_idx : ℕ
  pub gather_h264_metadata : Bool
  pub gather_h264_metadata_pid : ℕ
  pub automatically_json_probe_streams : Bool
  pub json_http_url : Line
  pub report_rtp_headers : Bool
  pub measure_sei_latency_always : Bool
  pub report_process_memory_usage : Bool

-- What getopt_long returns, the index of a long option, and its argument.
pub record Argument : Type 0 where
  pub ch : ℕ
  pub index : ℕ
  pub optarg : Line

-- `atoi`, `strstr`, the two patterns of `sscanf`, the clock plus a number, and the tests for a file
-- and for an interface. A hexadecimal number is 32 bits.
pub record Host : Type 0 where
  pub atoi : Line → ℤ
  pub strstr : Line → Line → Bool
  pub scan_url : Line → Option Target
  pub scan_hex : Line → Option ℕ
  pub later : ℤ → ℤ
  pub is_valid_transport_file : Line → Bool
  pub interface_exists : Line → Bool

-- The options go on, the process ends, or an argument is copied past the end of an array.
pub data Outcome : Type 0 where
  goes_on : Settings → Outcome
  exits : Outcome
  overflows : Outcome

-- `if (x < low) x = low`
unfoldable pub at_least : ℤ → ℤ → ℤ
at_least low x = if leb_ℤ low x then x else low

abbrev pub srt : Line
srt = b's' ∷ b'r' ∷ b't' ∷ b':' ∷ b'/' ∷ b'/' ∷ []

abbrev pub udp : Line
udp = b'u' ∷ b'd' ∷ b'p' ∷ b':' ∷ b'/' ∷ b'/' ∷ []

abbrev pub loop : Line
loop = b':' ∷ b'l' ∷ b'o' ∷ b'o' ∷ b'p' ∷ []

-- Three targets, 227.1.240.7:4001 and the next two addresses.
abbrev pub default_target : ℕ → Target
default_target last = record {
  addr = b'2' ∷ b'2' ∷ b'7' ∷ b'.' ∷ b'1' ∷ b'.' ∷ b'2' ∷ b'4' ∷ b'0' ∷ b'.' ∷ last ∷ [];
  port = pos 4001;
}

-- What nic_monitor sets before it reads the options: `snaplen` is the host's BUFSIZ.
unfoldable pub defaults : ℤ → Line → Line → Settings
defaults bufsiz filter url = record {
  buffer_size = pos (64 * 1024 * 1024);
  file_prefix = none;
  pcap_filter = filter;
  ifname = none;
  iftype = InputType.pcap;
  file_loops = false;
  iat_max = pos 45;
  file_write_interval = pos 5;
  end_time = none;
  verbose = 0;
  monitor = false;
  recording_dir = none;
  record_with_segments = true;
  snaplen = bufsiz;
  detailed_file_prefix = none;
  record_as_ts = false;
  automatically_record_streams = false;
  skip_free_space_check = false;
  url_forwards = default_target b'7' ∷ default_target b'8' ∷ default_target b'9' ∷ [];
  forwarder_idx = 0;
  gather_h264_metadata = false;
  gather_h264_metadata_pid = 0;
  automatically_json_probe_streams = false;
  json_http_url = url;
  report_rtp_headers = false;
  measure_sei_latency_always = false;
  report_process_memory_usage = false;
}

module _ (host : Host) where
  unfoldable pub is_device : Line → Bool
  is_device optarg = host.strstr optarg srt || host.strstr optarg udp

  -- `:loop` is taken off by its length, wherever it stands.
  unfoldable pub input_name : Line → Line
  unfolding is_device
  input_name optarg =
      if is_device optarg
      then optarg
      else if host.strstr optarg loop
      then take (length optarg - 5) optarg
      else optarg

  -- What is no device is a file, or must be an interface.
  unfoldable pub check_input : Settings → Line → InputType → Outcome
  check_input s name InputType.mpegts_avdevice = goes_on s
  check_input s name _ =
      if host.is_valid_transport_file name
      then goes_on (record s { iftype = InputType.mpegts_file })
      else if host.interface_exists name
      then goes_on s
      else exits

  -- Option 'i'. The kind of an earlier input is kept.
  unfoldable pub input : Settings → Line → Outcome
  unfolding input_name check_input
  input s optarg =
      let named : Settings = record s {
        ifname = some (input_name optarg);
        file_loops = not (is_device optarg) && host.strstr optarg loop;
        iftype = if is_device optarg then InputType.mpegts_avdevice else s.iftype;
      } in
      check_input named (input_name optarg) named.iftype

  -- Option 20: the target takes the next of the three places.
  unfoldable pub forwarder : Settings → Line → Outcome
  forwarder s optarg = if s.forwarder_idx == 3 then exits else elim (host.scan_url optarg) [
    | none ↦ exits
    | some target ↦ goes_on (record s {
      url_forwards = set s.url_forwards s.forwarder_idx target;
      forwarder_idx = s.forwarder_idx + 1;
    })
  ]

  -- Option 22: the number is read into an int, and compared as one.
  unfoldable pub metadata : Settings → Line → Outcome
  metadata s optarg = elim (host.scan_hex optarg) [
    | none ↦ exits
    | some pid ↦
        if ltb 0x1fff pid && ltb pid (2 ^ 31)
        then exits
        else goes_on (record s { gather_h264_metadata = true; gather_h264_metadata_pid = pid })
  ]

  -- Option 23: the argument and its zero are copied into 256 bytes.
  unfoldable pub reporting : Settings → Line → Outcome
  reporting s optarg =
      if ltb (length optarg) 256
      then goes_on (record s { automatically_json_probe_streams = true; json_http_url = optarg })
      else overflows

  -- The long options without a letter.
  unfoldable pub long_option : ℕ → Settings → Line → Outcome
  unfolding forwarder metadata reporting
  long_option index s optarg =
      if index == 12
      then goes_on (record s { skip_free_space_check = true })
      else if index == 20
      then forwarder s optarg
      else if index == 22
      then metadata s optarg
      else if index == 23
      then reporting s optarg
      else if index == 24
      then goes_on (record s { report_rtp_headers = true })
      else if index == 25
      then goes_on (record s { measure_sei_latency_always = true })
      else if index == 26
      then goes_on (record s { report_process_memory_usage = true })
      else exits

  -- The letters that set a number.
  unfoldable pub number_option : ℕ → Settings → Line → Option Settings
  unfolding at_least
  number_option ch s optarg =
      if ch == b'B'
      then some (record s { buffer_size = at_least (pos (2 * 1048576)) (host.atoi optarg) })
      else if ch == b'I'
      then some (record s { iat_max = host.atoi optarg })
      else if ch == b'n'
      then some (record s { file_write_interval = at_least (pos 1) (host.atoi optarg) })
      else if ch == b't'
      then some (record s { end_time = some (host.later (host.atoi optarg)) })
      else if ch == b'S'
      then some (record s { snaplen = at_least (pos 2048) (host.atoi optarg) })
      else none

  -- The letters that set a text or a flag.
  unfoldable pub text_option : ℕ → Settings → Line → Option Settings
  text_option ch s optarg =
      if ch == b'd'
      then some (record s { file_prefix = some optarg })
      else if ch == b'F'
      then some (record s { pcap_filter = optarg })
      else if ch == b'D'
      then some (record s { recording_dir = some optarg })
      else if ch == b'w'
      then some (record s { detailed_file_prefix = some optarg })
      else none

  unfoldable pub flag_option : ℕ → Settings → Option Settings
  flag_option ch s =
      if ch == b'v'
      then some (record s { verbose = s.verbose + 1 })
      else if ch == b'M'
      then some (record s { monitor = true })
      else if ch == b'E'
      then some (record s { record_with_segments = false })
      else if ch == b'T'
      then some (record s { record_as_ts = true })
      else if ch == b'R'
      then some (record s { automatically_record_streams = true })
      else none

  -- One round of the loop: the letters '@', 'h' and '?' end the process.
  unfoldable pub option : Argument → Settings → Outcome
  unfolding input long_option number_option text_option flag_option
  option a s =
      if a.ch == b'@' || a.ch == b'h' || a.ch == b'?'
      then exits
      else if a.ch == b'i'
      then input s a.optarg
      else elim (number_option a.ch s a.optarg) [
        | some t ↦ goes_on t
        | none ↦ elim (text_option a.ch s a.optarg) [
          | some t ↦ goes_on t
          | none ↦ elim (flag_option a.ch s) [
            | some t ↦ goes_on t
            | none ↦ long_option a.index s a.optarg
          ]
        ]
      ]

  unfoldable pub options : List Argument → Settings → Outcome
  unfolding option
  options [] s = goes_on s
  options (a ∷ rest) s = elim (option a s) [
    | goes_on t ↦ options rest t
    | exits ↦ exits
    | overflows ↦ overflows
  ]

  -- processArguments, with the test for the option that must be given.
  unfoldable pub require_input : Outcome → Outcome
  require_input (goes_on s) = elim s.ifname [ none ↦ exits | some name ↦ goes_on s ]
  require_input o = o

  unfoldable pub process_arguments : List Argument → Settings → Outcome
  unfolding options require_input
  process_arguments args s = require_input (options args s)
