-- ===== src/PidDrop/Output.antt =====
-- What the tool writes.
use ltntstools.Base.{
  ◌≡◌, refl, sym, ap, ap₂, ◌∙◌, fun_ext, inl, inr, ℕ, zero, suc, ◌+◌, ◌%◌, ◌^◌, ◌<◌, Bool, true,
  false, Option, some, List, [], ◌∷◌, ◌++◌, arith, ltb, ◌==◌, if◌then◌else◌, Bool-cases, length,
  take, drop, length-drop, length-append, append-take-drop, drop-short, ltb→lt,
}
use mathlib.Core.List.{append-nil, append_assoc}
use ltntstools.Document.{Line}
use ltntstools.PidDrop.{
  Host, Argument, Context, Outcome, start, options, write_block, copy, pid_drop_from, pid_drop,
}
use ltntstools.PidDrop.Verdict.{or_else, verdict, options-verdict}

count_one : (n : ℕ) → (n % 2 ^ 64 + 1) % 2 ^ 64 ≡ (n + 1) % 2 ^ 64
count_one n = omega arith

not_empty : (n : ℕ) → (suc n == 0) ≡ false
not_empty n = ground arith

module _ (host : Host) where
  -- The packets of which the PID passes, in order.
  unfoldable pub passing : (ℕ → Bool) → List host.Packet → List host.Packet
  passing filter [] = []
  passing filter (p ∷ rest) =
      if filter (host.pid p) then p ∷ passing filter rest else passing filter rest

  write_block-passing :
      (filter : ℕ → Bool) (block out : List host.Packet) (n : ℕ)
      → write_block host filter block (out, n % 2 ^ 64)
        ≡ (out ++ passing filter block, (n + length block) % 2 ^ 64)
  unfolding write_block passing
  write_block-passing filter [] out n = rw (append-nil out) (ap (λ k. (out, k)) (omega arith))
  write_block-passing filter (p ∷ rest) out n = elim (Bool-cases (filter (host.pid p))) [
    | inl h ↦
        rw (h, count_one n, write_block-passing filter rest (out ++ p ∷ []) (n + 1), append_assoc)
          (ap (λ k. (out ++ p ∷ passing filter rest, k)) (omega arith))
    | inr h ↦
        rw (h, count_one n, write_block-passing filter rest out (n + 1))
          (ap (λ k. (out ++ passing filter rest, k)) (omega arith))
  ]

  passing-append :
      (filter : ℕ → Bool) (xs ys : List host.Packet)
      → passing filter (xs ++ ys) ≡ passing filter xs ++ passing filter ys
  unfolding passing
  passing-append filter [] ys = refl
  passing-append filter (p ∷ xs) ys = elim (Bool-cases (filter (host.pid p))) [
    | inl h ↦ rw h (ap (λ l. p ∷ l) (passing-append filter xs ys))
    | inr h ↦ rw h (passing-append filter xs ys)
  ]

  copy_round :
      (fuel : ℕ) (filter : ℕ → Bool) (file out : List host.Packet) (n : ℕ)
      → 0 < length file
      → copy host (suc fuel) filter false file (out, n % 2 ^ 64)
        ≡ copy host fuel filter
            (ltb (length (take 32 file)) 32)
            (drop 32 file)
            (out ++ passing filter (take 32 file), (n + length (take 32 file)) % 2 ^ 64)
  unfolding copy
  copy_round fuel filter [] out n h = elim h [ ]
  copy_round fuel filter (p ∷ rest) out n h =
      rw
        (not_empty (length (take 31 rest)), ← write_block-passing filter (take 32 (p ∷ rest)) out n)
        refl

  copy_end :
      (fuel : ℕ) (filter : ℕ → Bool) (file : List host.Packet) (done : List host.Packet × ℕ)
      → 0 < fuel
      → copy host fuel filter true file done ≡ some done
  unfolding copy
  copy_end zero filter file done h = elim h [ ]
  copy_end (suc fuel) filter file done h = refl

  split_out :
      (filter : ℕ → Bool) (file out : List host.Packet)
      → (out ++ passing filter (take 32 file)) ++ passing filter (drop 32 file)
        ≡ out ++ passing filter file
  split_out filter file out =
      append_assoc out (passing filter (take 32 file)) (passing filter (drop 32 file))
      ∙ ap (λ l. out ++ l)
          (sym (passing-append filter (take 32 file) (drop 32 file))
            ∙ ap (passing filter) (append-take-drop 32 file))

  split_count :
      (file : List host.Packet) (n : ℕ)
      → n + length (take 32 file) + length (drop 32 file) ≡ n + length file
  split_count file n =
      omega
        (arith, length-append (take 32 file) (drop 32 file), ap length (append-take-drop 32 file))

  -- A block that is not full is the last.
  split_short :
      (filter : ℕ → Bool) (file out : List host.Packet) (n : ℕ)
      → length (take 32 file) < 32
      → ◌≡◌ {A = Option (List host.Packet × ℕ)}
          (some (out ++ passing filter (take 32 file), (n + length (take 32 file)) % 2 ^ 64))
          (some (out ++ passing filter file, (n + length file) % 2 ^ 64))
  unfolding passing
  split_short filter file out n short =
      let empty = drop-short 32 file short in
      let block = out ++ passing filter (take 32 file) in
      ap₂ (λ l k. some (l, k % 2 ^ 64))
        (sym (append-nil block)
          ∙ ap (λ d. block ++ passing filter d) (sym empty)
          ∙ split_out filter file out)
        (omega (arith, ap length empty, split_count file n))

  split_full :
      (filter : ℕ → Bool) (file out : List host.Packet) (n : ℕ)
      → ◌≡◌ {A = Option (List host.Packet × ℕ)}
          (some (
            (out ++ passing filter (take 32 file)) ++ passing filter (drop 32 file),
            (n + length (take 32 file) + length (drop 32 file)) % 2 ^ 64,
          ))
          (some (out ++ passing filter file, (n + length file) % 2 ^ 64))
  split_full filter file out n =
      ap₂ (λ l k. some (l, k % 2 ^ 64)) (split_out filter file out) (split_count file n)

  copy_empty :
      (fuel : ℕ) (filter : ℕ → Bool) (out : List host.Packet) (n : ℕ)
      → copy host (suc fuel) filter false [] (out, n % 2 ^ 64)
        ≡ some (out ++ passing filter [], (n + 0) % 2 ^ 64)
  unfolding copy passing
  copy_empty fuel filter out n = rw (append-nil out) (ap (λ k. some (out, k)) (omega arith))

  -- The rest of a file, from the head of the loop.
  copy_lem :
      (fuel : ℕ) (filter : ℕ → Bool) (file out : List host.Packet) (n : ℕ)
      → length file + 1 < fuel
      → copy host fuel filter false file (out, n % 2 ^ 64)
        ≡ some (out ++ passing filter file, (n + length file) % 2 ^ 64)
  copy_lem zero filter file out n h = elim h [ ]
  copy_lem (suc fuel) filter [] out n h = copy_empty fuel filter out n
  copy_lem (suc fuel) filter (p ∷ rest) out n h =
      let file = p ∷ rest in
      let block = take 32 file in
      let next =
        copy_lem fuel filter (drop 32 file) (out ++ passing filter block) (n + length block)
          (omega (arith, h, length-drop 32 file)) in
      copy_round fuel filter file out n (omega arith) ∙ (elim (Bool-cases (ltb (length block) 32)) [
        | inl short ↦ rw short (
            copy_end fuel filter (drop 32 file)
              (out ++ passing filter block, (n + length block) % 2 ^ 64) (omega (arith, h))
            ∙ split_short filter file out n (ltb→lt (length block) 32 short))
        | inr full ↦ rw full (next ∙ split_full filter file out n)
      ])

  pid_drop_from_lem :
      (c : Context) (filter : ℕ → Bool) (i o : Line) (file : List host.Packet)
      → c.filter ≡ filter
      → c.ifn ≡ some i
      → c.ofn ≡ some o
      → host.open_input i ≡ some file
      → host.open_output o ≡ true
      → host.malloc ≡ true
      → pid_drop_from host c ≡ some (Outcome.wrote (passing filter file) (length file % 2 ^ 64))
  unfolding pid_drop_from passing
  pid_drop_from_lem c filter i o file same input output opened created memory =
      rw (input, output, opened, created, memory, same, pid_drop_from)
        (rw (copy_lem (length file + 2) filter file [] 0 (omega arith))
          (ap (λ n. some (Outcome.wrote (passing filter file) (n % 2 ^ 64))) (omega arith)))

  -- When the options are accepted, the input and the output named and opened and the memory given,
  -- the tool ends, and it has written, in order, the packets of the input of which the PID passes:
  -- the last of the options that names the PID or all PIDs is -A, or there is none. It has
  -- counted all packets of the input, up to the 64 bits of the counter.
  pub pid_drop_lem :
      (args : List Argument) (c : Context) (i o : Line) (file : List host.Packet)
      → options host start args ≡ some c
      → c.ifn ≡ some i
      → c.ofn ≡ some o
      → host.open_input i ≡ some file
      → host.open_output o ≡ true
      → host.malloc ≡ true
      → pid_drop host args
        ≡ some (
            Outcome.wrote
              (passing (λ k. or_else (verdict host args k) true) file)
              (length file % 2 ^ 64))
  unfolding pid_drop
  pid_drop_lem args c i o file accepted input output opened created memory =
      let filter = fun_ext (λ k. options-verdict host args start c k accepted) in
      rw (accepted, pid_drop)
        (pid_drop_from_lem c (λ k. or_else (verdict host args k) true) i o file filter input output
          opened created memory)
