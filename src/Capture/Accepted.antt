-- ===== src/Capture/Accepted.antt =====
-- What a captured frame leaves in the list and the cache.
use ltntstools.Base.{
  ◌≡◌, refl, ◌∙◌, ℕ, ◌+◌, ◌-◌, ◌%◌, ◌≤◌, ◌<◌, ◌++◌, ◌&&◌, ◌==◌, ltb, if◌then◌else◌, Bool,
  Bool-cases, Option-cases, subst, true, false, Option, none, some, List, [], ◌∷◌, arith, ◌⊎◌, inl,
  inr,
}
use ltntstools.HashIndex.{compute_stream_hash}
use ltntstools.Item.{DiscoveredItem}
use ltntstools.Monitor.{ToolContext, Environment, find_addr, update_addr}
use ltntstools.Monitor.Store.{
  Stream, stream_of, Keeps, stream_of-find_addr, stream_of-update_addr, update_addr-Distinct,
}
use ltntstools.Monitor.Create.{IsFresh}
use ltntstools.Monitor.Findcreate.{IsValid, Found, findcreate-Found, update_addr-SortedFrom}
use ltntstools.Housekeeping.Alike.{Alike, Alike-IsConsistent}
use ltntstools.Payload.{synced_reads, reads, is_udp_ts, is_rtp_ts}
use ltntstools.Capture.{
  Frame, Handed, all_below, reads_captured, is_udp_frame, see, handed, at_object, after_findcreate,
  update_statistics,
}

-- A context whose list holds the same streams in the same order is valid with it.
pub Alike-IsValid :
    {ctx : ToolContext} {l : List DiscoveredItem}
    → Alike ctx.list l
    → IsValid ctx
    → IsValid (record ctx { list = l })
Alike-IsValid alike v = record {
  sorted = alike.still_sorted 0 v.sorted;
  consistent = Alike-IsConsistent alike v.consistent;
}

see-Keeps : (now : ℕ) (f : Frame) → Keeps (see now f)
unfolding see
see-Keeps now f = record {
  same_addr = λ e. ground arith;
  same_headers = λ e. ground arith;
  same_key = λ e. ground arith;
}

seen-Alike :
    (now a : ℕ) (f : Frame) (l : List DiscoveredItem) → Alike l (update_addr a (see now f) l)
seen-Alike now a f l = record {
  same_streams = λ b. stream_of-update_addr (see-Keeps now f) b a l;
  still_distinct = update_addr-Distinct (see-Keeps now f) a l;
  still_sorted = λ b. update_addr-SortedFrom (see-Keeps now f) a b l;
}

find_addr-update_addr :
    (a : ℕ) {f : DiscoveredItem → DiscoveredItem} (keeps : Keeps f) (l : List DiscoveredItem)
    (e : DiscoveredItem)
    → find_addr a l ≡ some e
    → find_addr a (update_addr a f l) ≡ some (f e)
unfolding find_addr update_addr
find_addr-update_addr a keeps [] e at = ground arith
find_addr-update_addr a keeps (x ∷ l) e at =
    ground (arith, keeps.same_addr x, find_addr-update_addr a keeps l e)

-- The object with the headers of the frame has been seen now, and is what the packets are handed
-- to; or memory ran out and nothing is handed on.
abbrev pub Seen : ℕ → Frame → Option ℕ → ToolContext → Option (ℕ × Handed) → Type 0
Seen now f fresh ctx r =
    ((r ≡ none) × (fresh ≡ none))
    ⊎ ((a : ℕ) × (e : DiscoveredItem) × (r ≡ some (a, handed e.payload_type f))
        × (find_addr a ctx.list ≡ some e)
        × (e.headers ≡ f.headers)
        × (e.last_updated ≡ now))

-- What a frame leaves that is taken: a valid context in which no stream is lost.
pub record Accepted (env : Environment) (f : Frame) (ctx ctx' : ToolContext)
    (r : Option (ℕ × Handed)) : Type 0 where
  pub valid : IsValid ctx'
  pub kept : (a : ℕ) (s : Stream) → stream_of a ctx.list ≡ some s → stream_of a ctx'.list ≡ some s
  pub seen : Seen env.now f env.fresh ctx' r

see-now : (now : ℕ) (f : Frame) (e : DiscoveredItem) → (see now f e).last_updated ≡ now
unfolding see
see-now now f e = ground arith

-- All of the payload was captured, and at least two bytes after the udp header, which are read in any
-- case.
abbrev pub IsWhole : Frame → Type 0
IsWhole f = (f.udp_len ≤ f.captured + 8) × (2 ≤ f.captured)

all_below-append :
    (n : ℕ) (xs ys : List ℕ)
    → all_below n xs ≡ true
    → all_below n ys ≡ true
    → all_below n (xs ++ ys) ≡ true
all_below-append n [] ys h k = k
all_below-append n (x ∷ xs) ys h k =
    ground (arith, h, k, all_below-append n xs ys (ground (arith, h)) k)

if-all_below :
    (n : ℕ) (b : Bool) (xs ys : List ℕ)
    → (b ≡ true → all_below n xs ≡ true)
    → all_below n ys ≡ true
    → all_below n (if b then xs else ys) ≡ true
if-all_below n true xs ys h k = h refl
if-all_below n false xs ys h k = k

if-false_below :
    (n : ℕ) (b : Bool) (ys : List ℕ)
    → all_below n ys ≡ true
    → all_below n (if b then [] else ys) ≡ true
if-false_below n true ys k = refl
if-false_below n false ys k = k

synced_reads_lem :
    (n : ℕ) (ptr : ℕ → ℕ) (offset len : ℕ)
    → offset + len ≤ n
    → all_below n (synced_reads ptr offset len) ≡ true
unfolding synced_reads
synced_reads_lem n ptr offset len h = ground arith

reads_lem : (n : ℕ) (ptr : ℕ → ℕ) (len : ℕ) → len ≤ n → 2 ≤ n → all_below n (reads ptr len) ≡ true
unfolding reads
reads_lem n ptr len h two =
    all_below-append n _ _
      (if-all_below n (len % 188 == 0) _ [] (λ _. synced_reads_lem n ptr 0 len (omega (arith, h)))
        refl)
      (if-false_below n (is_udp_ts ptr len) _ (
        all_below-append n _ _
          (if-all_below n (ltb 12 len && (len - 12) % 188 == 0) _ []
            (λ long. synced_reads_lem n ptr 12 (len - 12) (ground (arith, h, long))) refl)
          (if-false_below n (is_rtp_ts ptr len) _ (ground (arith, two)))))

reads_captured_lem : (f : Frame) (e : DiscoveredItem) → IsWhole f → reads_captured f e ≡ true
unfolding reads_captured
reads_captured_lem f e (long, two) =
    ground (arith, reads_lem f.captured f.ptr (f.udp_len - 8) (omega (arith, long)) two)

-- The use of an object of the list, and what a use leaves.
pub at_object-there :
    (now a : ℕ) (f : Frame) (ctx : ToolContext) (e : DiscoveredItem)
    → IsWhole f
    → find_addr a ctx.list ≡ some e
    → (ctx' : ToolContext) × (h : Option (ℕ × Handed)) × (at_object now f a ctx ≡ some (ctx', h))
unfolding at_object
at_object-there now a f ctx e captured there = (
  record ctx { list = update_addr a (see now f) ctx.list },
  some (a, handed (see now f e).payload_type f),
  rw (there, reads_captured_lem f e captured, at_object) refl,
)

pub at_object-IsValid :
    (now a : ℕ) (f : Frame) (ctx ctx' : ToolContext) (h : Option (ℕ × Handed))
    → IsValid ctx
    → at_object now f a ctx ≡ some (ctx', h)
    → IsValid ctx'
unfolding at_object
at_object-IsValid now a f ctx ctx' h v done = elim (Option-cases (find_addr a ctx.list)) [
  | inl gone ↦ absurd (ground (arith, gone, done))
  | inr (e, there) ↦ elim (Bool-cases (reads_captured f e)) [
    | inr past_end ↦ absurd (ground (arith, there, past_end, done))
    | inl captured ↦
        subst IsValid (ground (arith, there, captured, done))
          (Alike-IsValid (seen-Alike now a f ctx.list) v)
  ]
]

module _ (env : Environment) (f : Frame) (ctx : ToolContext) where
  -- Through a pointer to an object of the list.
  at_object-Accepted :
      (a : ℕ) (e : DiscoveredItem) (mid : ToolContext)
      → Found env ctx f.headers (some a) mid
      → find_addr a mid.list ≡ some e
      → e.headers ≡ f.headers
      → IsWhole f
      → (ctx' : ToolContext) × (h : Option (ℕ × Handed)) × (at_object env.now f a mid
          ≡ some (ctx', h))
        × Accepted env f ctx ctx' h
  unfolding at_object
  at_object-Accepted a e mid found there same captured =
      let seen : DiscoveredItem = see env.now f e in
      let alike = seen-Alike env.now a f mid.list in
      (
        record mid { list = update_addr a (see env.now f) mid.list },
        some (a, handed seen.payload_type f),
        rw (there, reads_captured_lem f e captured, at_object) refl,
        record {
          valid = Alike-IsValid alike found.valid;
          kept = λ b s at. alike.same_streams b ∙ found.kept b s at;
          seen = inr (
            a,
            seen,
            refl,
            find_addr-update_addr a (see-Keeps env.now f) mid.list e there,
            (see-Keeps env.now f).same_headers e ∙ same,
            see-now env.now f e,
          );
        },
      )

  after-Accepted :
      (r : Option ℕ) (mid : ToolContext)
      → Found env ctx f.headers r mid
      → IsWhole f
      → (ctx' : ToolContext) × (h : Option (ℕ × Handed)) × (after_findcreate env.now f (r, mid)
          ≡ some (ctx', h))
        × Accepted env f ctx ctx' h
  unfolding after_findcreate
  after-Accepted none mid found captured = elim found.answer [
    | inl (_, no_memory, _) ↦ (
      mid,
      none,
      refl,
      record { valid = found.valid; kept = found.kept; seen = inl (refl, no_memory) },
    )
    | inr (b, s, e, at, same) ↦ absurd (cc)
  ]
  after-Accepted (some a) mid found captured = elim found.answer [
    | inl (e, _, _) ↦ absurd (cc)
    | inr (b, s, e, at, same) ↦ elim (stream_of-find_addr a mid.list) [
      | inl (_, free) ↦ absurd (ground (arith, free, at, e))
      | inr (x, there, streams) ↦
          at_object-Accepted a x mid found there (ground (arith, streams, at, e, same)) captured
    ]
  ]

  -- In a valid context, where what `calloc` returns is no address in use, for every udp frame whose
  -- stream has an entry in the table and of which all that its udp header claims was captured, and at
  -- least two bytes after it: the call does not fault, the context stays valid, no stream is
  -- lost, and the packets are handed to the object with the headers of the frame, which has been
  -- seen now; or memory ran out, and nothing is handed on.
  pub update_statistics-Accepted :
      IsValid ctx
      → IsFresh env ctx
      → compute_stream_hash f.headers < 65535
      → is_udp_frame f ≡ true
      → IsWhole f
      → (ctx' : ToolContext) × (h : Option (ℕ × Handed)) × (update_statistics env ctx f
          ≡ some (ctx', h))
        × Accepted env f ctx ctx' h
  unfolding update_statistics
  update_statistics-Accepted v fresh inside ok captured =
      let (r, mid, found, left) = findcreate-Found env ctx f.headers v fresh inside in
      let (ctx', h, done, accepted) = after-Accepted r mid left captured in
      (ctx', h, rw (ok, found, update_statistics) done, accepted)

  -- Other frames leave everything as it was.
  pub update_statistics-ignored :
      is_udp_frame f ≡ false → update_statistics env ctx f ≡ some (ctx, none)
  unfolding update_statistics
  update_statistics-ignored no_udp = rw no_udp refl
