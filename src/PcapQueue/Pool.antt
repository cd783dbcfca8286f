-- ===== src/PcapQueue/Pool.antt =====
-- The buffers that pcap_queue_initialize makes.
use ltntstools.Base.{
  ℕ, zero, suc, ◌+◌, ◌≤◌, ◌<◌, ◌≡◌, refl, ap, ◌∙◌, none, List, [], ◌∷◌, ◌++◌, arith, length-append,
  All-append,
}
use ltntstools.PcapQueue.{
  Packet, Buffer, Queue, Allocations, empty, initialize, enqueue, push, push_from,
}
use ltntstools.PcapQueue.Buffers.{Fits, IsSound}

initialize-IsSound_from :
    (left_over : ℕ → Packet) (n : ℕ) (q : Queue)
    → ((i : ℕ) → (left_over i).len ≤ 1700)
    → IsSound q
    → IsSound (initialize left_over n q)
      × ((initialize left_over n q).free_depth ≡ n + q.free_depth)
unfolding initialize
initialize-IsSound_from left_over zero q small s = (s, omega arith)
initialize-IsSound_from left_over (suc n) q small s =
    let b : Buffer = record { capacity = 1700; held = left_over n } in
    let (sound, depth) =
      initialize-IsSound_from left_over n
        (record q { free = q.free ++ b ∷ []; free_depth = q.free_depth + 1 }) small
        (record {
          free_counted = omega (arith, s.free_counted, length-append q.free (b ∷ []));
          used_counted = s.used_counted;
          free_fits = All-append Fits q.free (b ∷ []) s.free_fits (small n, tt);
          used_fits = s.used_fits;
        }) in
    (sound, omega (arith, depth))

-- If the memory of the headers happens to hold lengths of at most 1700 bytes, the queue starts
-- sound, with as many free buffers as were asked for.
pub initialize-IsSound :
    (left_over : ℕ → Packet) (n : ℕ)
    → ((i : ℕ) → (left_over i).len ≤ 1700)
    → IsSound (initialize left_over n empty) × ((initialize left_over n empty).free_depth ≡ n)
unfolding empty
initialize-IsSound left_over n small =
    let (sound, depth) =
      initialize-IsSound_from left_over n empty small
        (record { free_counted = refl; used_counted = refl; free_fits = tt; used_fits = tt }) in
    (sound, omega (arith, depth))

free-initialize :
    (left_over : ℕ → Packet) (n : ℕ) (q : Queue) (b : Buffer) (rest : List Buffer)
    → q.free ≡ b ∷ rest
    → (more : List Buffer) × ((initialize left_over n q).free ≡ b ∷ more)
unfolding initialize
free-initialize left_over zero q b rest e = (rest, e)
free-initialize left_over (suc n) q b rest e =
    let c : Buffer = record { capacity = 1700; held = left_over n } in
    free-initialize left_over n
      (record q { free = q.free ++ c ∷ []; free_depth = q.free_depth + 1 }) b (rest ++ c ∷ [])
      (ap (λ l. l ++ c ∷ []) e)

-- If the uninitialised header of the first buffer holds a length that a packet of more than 1700
-- bytes does not exceed, the buffer is not enlarged and the packet is written past its end.
pub push-initialize :
    (m : Allocations) (left_over : ℕ → Packet) (n : ℕ) (p : Packet)
    → 1700 < p.len
    → p.len ≤ (left_over n).len
    → push m (initialize left_over (suc n) empty) p ≡ none
unfolding push initialize empty
push-initialize m left_over n p big old =
    let b : Buffer = record { capacity = 1700; held = left_over n } in
    let q : Queue = record empty { free = b ∷ []; free_depth = 1 } in
    let (more, e) = free-initialize left_over n q b [] refl in
    let full : push_from m (b ∷ more) (initialize left_over n q) p ≡ none =
      unfold push_from enqueue in ground (arith, big, old) in
    ap (λ l. push_from m l (initialize left_over n q) p) e ∙ full
