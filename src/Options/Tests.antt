-- ===== src/Options/Tests.antt =====
-- The theorem about the options at a command line, and lines that end the process.
use ltntstools.Base.{ℕ, ◌≡◌, refl, false, some, List, [], ◌∷◌, ltb, length}
use ltntstools.Document.{Line}
use ltntstools.Statistics.{pos}
use ltntstools.Options.{
  Settings, Argument, Host, goes_on, exits, default_target, defaults, process_arguments,
}
use ltntstools.Options.Bounds.{InRange, process_arguments-InRange}

-- A host with one interface, `e`: `atoi` answers 7, and a name of more than five bytes is a device.
abbrev host : Host
host = record {
  atoi = λ _. pos 7;
  strstr = λ name _. ltb 5 (length name);
  scan_url = λ _. some (default_target b'1');
  scan_hex = λ _. some 0x2000;
  later = λ n. n;
  is_valid_transport_file = λ _. false;
  interface_exists = λ name. ltb (length name) 2;
}

abbrev letter : ℕ → Line → Argument
letter c optarg = record { ch = c; index = 0; optarg = optarg }

abbrev long : ℕ → Argument
long index = record { ch = 0; index = index; optarg = [] }

abbrev start : Settings
start = defaults (pos 8192) [] []

-- `-i e -B 7 --udp-forwarder x`
abbrev line : List Argument
line = letter b'i' (b'e' ∷ []) ∷ letter b'B' [] ∷ long 20 ∷ []

abbrev settled : Settings
settled = record start {
  ifname = some (b'e' ∷ []);
  buffer_size = pos 2097152;
  url_forwards = default_target b'1' ∷ default_target b'8' ∷ default_target b'9' ∷ [];
  forwarder_idx = 1;
}

goes : process_arguments host line start ≡ goes_on settled
unfolding process_arguments defaults
goes = refl

process_arguments-InRange_example : InRange settled × ((name : Line) × (settled.ifname ≡ some name))
process_arguments-InRange_example =
    process_arguments-InRange host line (pos 8192) [] [] settled refl goes

no_input : process_arguments host (long 25 ∷ []) start ≡ exits
unfolding process_arguments defaults
no_input = refl

fourth_forwarder :
    process_arguments host (long 20 ∷ long 20 ∷ long 20 ∷ long 20 ∷ line) start ≡ exits
unfolding process_arguments defaults
fourth_forwarder = refl
