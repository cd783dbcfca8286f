-- ===== src/PcapQueue/Reduction.antt =====
-- What the rebalancing frees.
use ltntstools.Base.{
  ℕ, zero, suc, ◌+◌, ◌-◌, ◌≡◌, refl, sym, ap, subst, ◌∙◌, List, [], ◌∷◌, arith, ltb, if◌then◌else◌,
  length, All, Bool-cases, inl, inr, drop,
}
use ltntstools.PcapQueue.{
  Buffer, Queue, queue_min, free_reduce, free_reduce_from, surplus, rebalance,
}
use ltntstools.PcapQueue.Buffers.{Fits, IsSound}

drop-nil : (n : ℕ) → drop {A = Buffer} n [] ≡ []
drop-nil zero = refl
drop-nil (suc n) = refl

-- How many buffers a call frees: `count`, or those beyond QUEUE_MIN if they are fewer.
unfoldable pub freed : ℕ → Queue → ℕ
freed count q = if ltb q.free_depth (queue_min + count) then q.free_depth - queue_min else count

free_reduce_from_lem :
    (count : ℕ) (xs : List Buffer) (q : Queue)
    → q.free ≡ xs
    → IsSound q
    → IsSound (free_reduce_from count xs q)
      × ((free_reduce_from count xs q).free ≡ drop (freed count q) xs)
      × ((free_reduce_from count xs q).used ≡ q.used)
unfolding free_reduce_from freed
free_reduce_from_lem zero xs q e s =
    let nothing : 0 ≡ freed 0 q = ground arith in (s, e ∙ ap (λ n. drop n xs) nothing, refl)
free_reduce_from_lem (suc count) [] q e s = (s, e ∙ sym (drop-nil _), refl)
free_reduce_from_lem (suc count) (b ∷ rest) q e s = elim (Bool-cases (ltb queue_min q.free_depth)) [
  | inr few ↦
      let stays : freed (suc count) q ≡ 0 = ground (arith, few) in
      (
        rw (few, free_reduce_from) s,
        rw (few, free_reduce_from) (e ∙ ap (λ n. drop n (b ∷ rest)) (sym stays)),
        rw (few, free_reduce_from),
      )
  | inl many ↦
      let fits : All Fits (b ∷ rest) = subst (All Fits) e s.free_fits in
      let q' : Queue = record q { free = rest; free_depth = q.free_depth - 1 } in
      let (sound, free, used) = free_reduce_from_lem count rest q' refl (record {
        free_counted = omega (arith, s.free_counted, ap length e);
        used_counted = s.used_counted;
        free_fits = fits.1;
        used_fits = s.used_fits;
      }) in
      let more : freed (suc count) q ≡ suc (freed count q') = ground (arith, many) in
      (
        rw (many, free_reduce_from) sound,
        rw (many, free_reduce_from) (free ∙ ap (λ n. drop n (b ∷ rest)) (sym more)),
        rw (many, free_reduce_from) used,
      )
]

-- A call of pcap_queue_rebalance on a sound queue that is due frees the buffers at the head of
-- `free`, as many as the surplus asks for but none of the last QUEUE_MIN, and leaves the packets
-- that wait; one that is not due changes nothing.
pub rebalance_lem :
    (now : ℕ) (q : Queue)
    → IsSound q
    → IsSound (rebalance now q)
      × ((rebalance now q).free
          ≡ (if ltb (q.queue_time_last + 5) now then drop (freed (surplus q) q) q.free else q.free))
      × ((rebalance now q).used ≡ q.used)
unfolding rebalance free_reduce freed
rebalance_lem now q s =
    let due : Queue = record q { queue_time_last = now } in
    let (sound, free, used) = free_reduce_from_lem (surplus q) q.free due refl (record {
      free_counted = s.free_counted;
      used_counted = s.used_counted;
      free_fits = s.free_fits;
      used_fits = s.used_fits;
    }) in
    elim (Bool-cases (ltb (q.queue_time_last + 5) now)) [
      | inl is_due ↦
          (rw (is_due, rebalance) sound, rw (is_due, rebalance) free, rw (is_due, rebalance) used)
      | inr early ↦ (rw (early, rebalance) s, rw (early, rebalance), rw (early, rebalance))
    ]
