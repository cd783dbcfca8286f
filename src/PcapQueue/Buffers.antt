-- ===== src/PcapQueue/Buffers.antt =====
-- What each step does to the lists, the counters and the packets on their way.
use ltntstools.Base.{
  ◌+◌, ◌-◌, ◌≤◌, ◌≡◌, refl, sym, ap, subst, ◌∙◌, Bool, true, false, not, ◌&&◌, some, List, [], ◌∷◌,
  ◌++◌, map, arith, ltb, if◌then◌else◌, length, length-append, All, All-append, Bool-cases, inl,
  inr,
}
use mathlib.Core.List.{append-nil, append_assoc}
use ltntstools.PcapQueue.{
  Packet, Buffer, Queue, Allocations, enqueue, push, push_from, Service, move_used, take_used,
  give_back, give_back_from,
}

-- What a buffer holds fits into it.
abbrev pub Fits : Buffer → Type 0
Fits b = b.held.len ≤ b.capacity

abbrev pub held_all : List Buffer → List Packet
held_all l = map (λ b. b.held) l

-- The counters are the lengths of the lists, and no buffer is too small for what it holds.
pub record IsSound (q : Queue) : Type 0 where
  pub free_counted : q.free_depth ≡ length q.free
  pub used_counted : q.used_depth ≡ length q.used
  pub free_fits : All Fits q.free
  pub used_fits : All Fits q.used

held_all-append : (xs ys : List Buffer) → held_all (xs ++ ys) ≡ held_all xs ++ held_all ys
held_all-append [] ys = refl
held_all-append (x ∷ xs) ys = ap (λ l. x.held ∷ l) (held_all-append xs ys)

-- A packet that was accepted stands at the end of `used`; the queue stays sound.
pub record Pushed (q : Queue) (p : Packet) (q' : Queue) (accepted : Bool) : Type 0 where
  pub sound : IsSound q'
  pub last : held_all q'.used ≡ held_all q.used ++ (if accepted then p ∷ [] else [])

enqueue_lem :
    (b : Buffer) (p : Packet) (q : Queue)
    → IsSound q
    → p.len ≤ b.capacity
    → (q' : Queue) × (enqueue b p q ≡ some q') × Pushed q p q' true
unfolding enqueue
enqueue_lem b p q s h = (
  record q { used = q.used ++ record b { held = p } ∷ []; used_depth = q.used_depth + 1 },
  ground (arith, h),
  record {
    sound = record {
      free_counted = s.free_counted;
      used_counted =
          omega (arith, s.used_counted, length-append q.used (record b { held = p } ∷ []));
      free_fits = s.free_fits;
      used_fits = All-append Fits q.used (record b { held = p } ∷ []) s.used_fits (h, tt);
    };
    last = held_all-append q.used (record b { held = p } ∷ []);
  },
)

-- Where `realloc` succeeds, a push into a sound queue does not fault; the packet is refused only
-- where no buffer is free and the memory for a new one is not to be had.
pub push-Pushed :
    (m : Allocations) (q : Queue) (p : Packet)
    → IsSound q
    → m.realloc_ok ≡ true
    → (q' : Queue) × (accepted : Bool) × (push m q p ≡ some (q', accepted))
      × Pushed q p q' accepted
      × ((accepted ≡ false) → (q.free ≡ []) × ((m.item_ok && m.header_ok && m.packet_ok) ≡ false))
unfolding push
push-Pushed m q p s ok = by_free q.free refl
  where
    by_free :
        (xs : List Buffer)
        → q.free ≡ xs
        → (q' : Queue) × (accepted : Bool) × (push_from m xs q p ≡ some (q', accepted))
          × Pushed q p q' accepted
          × ((accepted ≡ false)
              → (q.free ≡ []) × ((m.item_ok && m.header_ok && m.packet_ok) ≡ false))
    by_free [] e =
        let missed : Queue = record q { free_miss = q.free_miss + 1 } in
        let missed_sound : IsSound missed = record {
          free_counted = s.free_counted;
          used_counted = s.used_counted;
          free_fits = s.free_fits;
          used_fits = s.used_fits;
        } in
        elim (Bool-cases (m.item_ok && m.header_ok && m.packet_ok)) [
          | inl got ↦
              let (q', done, pushed) =
                enqueue_lem (record { capacity = p.len; held = p }) p missed missed_sound
                  (omega arith) in
              (
                q',
                true,
                rw (got, done, push_from),
                record { sound = pushed.sound; last = pushed.last },
                λ f. absurd (ground (arith, f)),
              )
          | inr missing ↦ (
            record missed { malloc_miss = q.malloc_miss + 1 },
            false,
            rw (missing, push_from),
            record {
              sound = record {
                free_counted = s.free_counted;
                used_counted = s.used_counted;
                free_fits = s.free_fits;
                used_fits = s.used_fits;
              };
              last = sym (append-nil _);
            },
            λ f. (e, missing),
          )
        ]
    by_free (b ∷ rest) e =
        let taken : Queue = record q { free = rest; free_depth = q.free_depth - 1 } in
        let fits : All Fits (b ∷ rest) = subst (All Fits) e s.free_fits in
        let taken_sound : IsSound taken = record {
          free_counted = omega (arith, s.free_counted, ap length e);
          used_counted = s.used_counted;
          free_fits = fits.1;
          used_fits = s.used_fits;
        } in
        let guard : (ltb b.held.len p.len && not m.realloc_ok) ≡ false = ground (arith, ok) in
        let buffer : Buffer = if ltb b.held.len p.len then record b { capacity = p.len } else b in
        let (q', done, pushed) = enqueue_lem buffer p taken taken_sound (ground (arith, fits.0)) in
        (
          q',
          true,
          rw (guard, done, push_from),
          record { sound = pushed.sound; last = pushed.last },
          λ f. absurd (ground (arith, f)),
        )

-- A service whose queue is sound, and whose temporary list has no buffer too small.
pub record IsRunning (s : Service) : Type 0 where
  pub sound : IsSound s.queue
  pub items_fit : All Fits s.items

-- The packets that were processed and those on their way, in order.
unfoldable pub stream : Service → List Packet
stream s = s.processed ++ (held_all s.items ++ held_all s.queue.used)

move_used_lem :
    (xs : List Buffer) (s : Service)
    → s.queue.used ≡ xs
    → IsRunning s
    → IsRunning (move_used xs s)
      × ((move_used xs s).queue.used ≡ [])
      × ((move_used xs s).processed ≡ s.processed)
      × (held_all (move_used xs s).items ≡ held_all s.items ++ held_all xs)
unfolding move_used
move_used_lem [] s e r = (r, e, refl, sym (append-nil _))
move_used_lem (b ∷ xs) s e r =
    let fits : All Fits (b ∷ xs) = subst (All Fits) e r.sound.used_fits in
    let (running, none_left, same, held) =
      move_used_lem xs
        (record s {
          queue = record s.queue { used = xs; used_depth = s.queue.used_depth - 1 };
          items = s.items ++ b ∷ [];
        })
        refl
        (record {
          sound = record {
            free_counted = r.sound.free_counted;
            used_counted = omega (arith, r.sound.used_counted, ap length e);
            free_fits = r.sound.free_fits;
            used_fits = fits.1;
          };
          items_fit = All-append Fits s.items (b ∷ []) r.items_fit (fits.0, tt);
        }) in
    (
      running,
      none_left,
      same,
      held
          ∙ ap (λ l. l ++ held_all xs) (held_all-append s.items (b ∷ []))
          ∙ append_assoc (held_all s.items) (b.held ∷ []) (held_all xs),
    )

-- The first section of pcap_queue_service takes all used buffers, in order.
pub take_used_lem :
    (s : Service)
    → IsRunning s
    → IsRunning (take_used s) × ((take_used s).queue.used ≡ []) × (stream (take_used s) ≡ stream s)
unfolding take_used stream
take_used_lem s r =
    let (running, none_left, same, held) = move_used_lem s.queue.used s refl r in
    (running, none_left, rw (none_left, same, held, append-nil))

-- The second section frees one buffer, and its packet is the next to be processed.
pub give_back_lem :
    (s : Service) → IsRunning s → IsRunning (give_back s) × (stream (give_back s) ≡ stream s)
unfolding give_back stream
give_back_lem s r = by_items s.items refl
  where
    by_items :
        (xs : List Buffer)
        → s.items ≡ xs
        → IsRunning (give_back_from xs s)
          × ((give_back_from xs s).processed
                ++ (held_all (give_back_from xs s).items
                    ++ held_all (give_back_from xs s).queue.used)
              ≡ s.processed ++ (held_all s.items ++ held_all s.queue.used))
    by_items [] e = (r, refl)
    by_items (b ∷ rest) e =
        let fits : All Fits (b ∷ rest) = subst (All Fits) e r.items_fit in
        (
          record {
            sound = record {
              free_counted =
                  omega (arith, r.sound.free_counted, length-append s.queue.free (b ∷ []));
              used_counted = r.sound.used_counted;
              free_fits = All-append Fits s.queue.free (b ∷ []) r.sound.free_fits (fits.0, tt);
              used_fits = r.sound.used_fits;
            };
            items_fit = fits.1;
          },
          append_assoc s.processed (b.held ∷ []) (held_all rest ++ held_all s.queue.used)
              ∙ ap (λ l. s.processed ++ (held_all l ++ held_all s.queue.used)) (sym e),
        )
