-- ===== src/PidDrop.antt =====
-- The tool that drops PIDs from a file (src/pid_drop.c), from the options that getopt finds on. The
-- C library and the files are a parameter: a file is the packets that fread finds whole in it.
-- The option -f and the numbers of -n and -p are kept and never used, as in the source.
pub mod Verdict
pub mod Output
mod Tests
use ltntstools.Base.{
  ℕ, zero, suc, ◌+◌, ◌%◌, ◌^◌, Bool, true, false, Option, none, some, List, [], ◌∷◌, ◌++◌, ltb,
  ◌==◌, if◌then◌else◌, length, take, drop,
}
use ltntstools.Document.{Line}

-- `sscanf` with "0x%x", `atoi` as the unsigned number that is stored, ltntstools_pid, fopen of the
-- input with what it holds, fopen of the output, and malloc.
pub record Host : Type 1 where
  pub Packet : Type 0
  pub scan_hex : Line → Option ℕ
  pub atoi : Line → ℕ
  pub pid : Packet → ℕ
  pub open_input : Line → Option (List Packet)
  pub open_output : Line → Bool
  pub malloc : Bool

-- What getopt returns, and its argument.
pub record Argument : Type 0 where
  pub ch : ℕ
  pub optarg : Line

-- struct tool_context_s. The filter is a function of the PID, true where it passes.
pub record Context : Type 0 where
  pub ifn : Option Line
  pub ofn : Option Line
  pub do_fixups : Bool
  pub pid_packet_drop_count : ℕ
  pub pid_packet_drop_position : ℕ
  pub filter : ℕ → Bool

abbrev pub all_pids : ℕ
all_pids = 0x2000

-- `memset(ctx, 0, ...)`, and the filter that passes everything.
abbrev pub start : Context
start = record {
  ifn = none;
  ofn = none;
  do_fixups = false;
  pid_packet_drop_count = 0;
  pid_packet_drop_position = 0;
  filter = λ k. true;
}

-- One PID or all of them.
unfoldable pub write_filter : (ℕ → Bool) → Bool → ℕ → ℕ → Bool
write_filter f v n k = if n == all_pids then v else if n == k then v else f k

-- The cases 'R' and 'A'. `none` is the usage and exit.
unfoldable pub filter_option : Context → Bool → Option ℕ → Option Context
unfolding write_filter
filter_option c v none = none
filter_option c v (some n) =
    if ltb all_pids n then none else some (record c { filter = write_filter c.filter v n })

module _ (host : Host) where
  unfoldable pub option : Context → Argument → Option Context
  unfolding filter_option
  option c a =
      if a.ch == b'f'
      then some (record c { do_fixups = true })
      else if a.ch == b'n'
      then some (record c { pid_packet_drop_count = host.atoi a.optarg })
      else if a.ch == b'i'
      then some (record c { ifn = some a.optarg })
      else if a.ch == b'o'
      then some (record c { ofn = some a.optarg })
      else if a.ch == b'p'
      then some (record c { pid_packet_drop_position = host.atoi a.optarg })
      else if a.ch == b'R'
      then filter_option c false (host.scan_hex a.optarg)
      else if a.ch == b'A'
      then filter_option c true (host.scan_hex a.optarg)
      else none

  unfoldable pub options : Context → List Argument → Option Context
  unfolding option
  options c [] = some c
  options c (a ∷ rest) = elim (option c a) [ none ↦ none | some c' ↦ options c' rest ]

  -- What is written and the count of packets, after the packets of one block.
  unfoldable pub write_block :
      (ℕ → Bool) → List host.Packet → List host.Packet × ℕ → List host.Packet × ℕ
  write_block filter [] (out, total) = (out, total)
  write_block filter (p ∷ rest) (out, total) =
      write_block filter rest
        (if filter (host.pid p) then out ++ p ∷ [] else out, (total + 1) % 2 ^ 64)

  -- `while (!feof(...))`, with fuel: the end is noticed by a block with fewer packets than asked
  -- for, or by an empty one.
  unfoldable pub copy :
      ℕ
      → (ℕ → Bool)
      → Bool
      → List host.Packet
      → List host.Packet × ℕ
      → Option (List host.Packet × ℕ)
  unfolding write_block
  copy zero filter eof file done = none
  copy (suc fuel) filter eof file done =
      let block = take 32 file in
      let more =
        copy fuel filter (ltb (length block) 32) (drop 32 file) (write_block filter block done) in
      if eof then some done else if length block == 0 then some done else more

  -- The process leaves by exit(1), or has written packets and counted those that it read.
  pub data Outcome : Type 0 where
    exits : Outcome
    wrote : List host.Packet → ℕ → Outcome

  unfoldable pub pid_drop_from : Context → Option Outcome
  unfolding copy
  pid_drop_from c = elim c.ifn [
    | none ↦ some exits
    | some i ↦ elim c.ofn [
      | none ↦ some exits
      | some o ↦ elim (host.open_input i) [
        | none ↦ some exits
        | some file ↦
            if host.open_output o
            then if host.malloc
              then elim (copy (length file + 2) c.filter false file ([], 0)) [
                | none ↦ none
                | some (out, total) ↦ some (wrote out total)
              ]
              else some exits
            else some exits
      ]
    ]
  ]

  -- pid_drop. `none` is a loop that has not ended.
  unfoldable pub pid_drop : List Argument → Option Outcome
  unfolding options pid_drop_from
  pid_drop args = elim (options start args) [ none ↦ some exits | some c ↦ pid_drop_from c ]
