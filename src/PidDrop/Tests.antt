-- ===== src/PidDrop/Tests.antt =====
-- A file of three packets, each written as its PID.
use ltntstools.Base.{
  ℕ, ◌%◌, ◌^◌, ◌≡◌, refl, true, false, Option, none, some, List, [], ◌∷◌, length, ◌==◌,
  if◌then◌else◌,
}
use ltntstools.Document.{Line}
use ltntstools.PidDrop.{Host, Argument, Context, Outcome, start, options, pid_drop}
use ltntstools.PidDrop.Verdict.{or_else, verdict}
use ltntstools.PidDrop.Output.{passing, pid_drop_lem}

-- An argument is the number that `sscanf` reads.
abbrev number : Line → Option ℕ
number [] = none
number (n ∷ rest) = some n

abbrev input : List ℕ
input = 0x31 ∷ 0x32 ∷ 0x1fff ∷ []

abbrev host : Host
host = record {
  Packet = ℕ;
  scan_hex = number;
  atoi = λ l. 0;
  pid = λ p. p;
  open_input = λ l. some input;
  open_output = λ l. true;
  malloc = true;
}

-- -i input -o output -R 0x2000 -A 0x31
abbrev only_0x31 : List Argument
only_0x31 =
    record { ch = b'i'; optarg = 1 ∷ [] }
    ∷ record { ch = b'o'; optarg = 2 ∷ [] }
    ∷ record { ch = b'R'; optarg = 0x2000 ∷ [] }
    ∷ record { ch = b'A'; optarg = 0x31 ∷ [] }
    ∷ []

abbrev accepted : Context
accepted = record {
  ifn = some (1 ∷ []);
  ofn = some (2 ∷ []);
  do_fixups = false;
  pid_packet_drop_count = 0;
  pid_packet_drop_position = 0;
  filter = λ k. if 0x31 == k then true else false;
}

options-accepted : options host start only_0x31 ≡ some accepted
unfolding options
options-accepted = refl

pid_drop_lem_example :
    pid_drop host only_0x31
    ≡ some (
        Outcome.wrote
          (passing host (λ k. or_else (verdict host only_0x31 k) true) input)
          (length input % 2 ^ 64))
pid_drop_lem_example =
    pid_drop_lem host only_0x31 accepted (1 ∷ []) (2 ∷ []) input options-accepted refl refl refl
      refl refl

one_written : pid_drop host only_0x31 ≡ some (Outcome.wrote (0x31 ∷ []) 3)
unfolding pid_drop
one_written = refl
