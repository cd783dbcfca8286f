-- ===== src/Housekeeping/Duplicates.antt =====
-- What the second stage leaves of the flags of each object.
use ltntstools.Base.{
  ℕ, ◌≡◌, refl, sym, ◌∙◌, ap, ◌⊎◌, inl, inr, Bool, true, false, not, ◌||◌, some, List, [], ◌∷◌, map,
  arith, ◌==◌, if◌then◌else◌, Bool-cases, Option-cases,
}
use ltntstools.Item.{
  Flag, Headers, DiscoveredItem, is_set, state_get, state_set, state_clr, network_addr_compare,
}
use ltntstools.Item.Flags.{is_set-state_set, is_set-state_clr, same}
use ltntstools.Selection.{turn_off}
use ltntstools.Monitor.{find_addr, update_addr, is_di_dst_duplicate}
use ltntstools.HashIndex.{contains}
use ltntstools.Housekeeping.{
  is_di_streaming, same_destination, conflict, stale_duplicate, mark_duplicate, count_if, settle,
  update_duplicate, addresses, update_duplicates,
}

-- What no stage changes.
abbrev pub Fixed : Type 0
Fixed = ℕ × Headers × ℕ × ℕ

abbrev pub fixed : DiscoveredItem → Fixed
fixed e = (e.addr, e.headers, e.last_updated, e.cache_hash_key)

pub fixed-mark_duplicate :
    (now : ℕ) (e f : DiscoveredItem) → fixed (mark_duplicate now e f) ≡ fixed f
unfolding mark_duplicate state_set state_clr
fixed-mark_duplicate now e f = ground arith

pub fixed-settle : (now m n : ℕ) (e : DiscoveredItem) → fixed (settle now m n e) ≡ fixed e
unfolding settle state_set state_clr
fixed-settle now m n e = ground arith

fixed-conflict :
    (now : ℕ) (e e' f f' : DiscoveredItem)
    → fixed e ≡ fixed e'
    → fixed f ≡ fixed f'
    → conflict now e f ≡ conflict now e' f'
unfolding conflict same_destination is_di_dst_duplicate is_di_streaming
fixed-conflict now e e' f f' h k = ground arith

conflict_sym : (now : ℕ) (e f : DiscoveredItem) → conflict now e f ≡ conflict now f e
unfolding conflict same_destination is_di_dst_duplicate network_addr_compare
conflict_sym now e f = ground arith

-- Whether another stream to the destination of `e` is streaming, as `e` is.
unfoldable pub duplicated : ℕ → DiscoveredItem → List DiscoveredItem → Bool
duplicated now e l = not (count_if (conflict now e) l == 0)

count_if-fixed :
    (now : ℕ) (e e' : DiscoveredItem) (l l' : List DiscoveredItem)
    → fixed e ≡ fixed e'
    → map fixed l ≡ map fixed l'
    → count_if (conflict now e) l ≡ count_if (conflict now e') l'
unfolding count_if
count_if-fixed now e e' [] [] h k = refl
count_if-fixed now e e' [] (f' ∷ l') h k = absurd (ground (arith, k))
count_if-fixed now e e' (f ∷ l) [] h k = absurd (ground (arith, k))
count_if-fixed now e e' (f ∷ l) (f' ∷ l') h k =
    ground (arith, k, fixed-conflict now e e' f f', count_if-fixed now e e' l l')

count_if-found :
    (p : DiscoveredItem → Bool) (a : ℕ) (l : List DiscoveredItem) (g : DiscoveredItem)
    → find_addr a l ≡ some g
    → p g ≡ true
    → (count_if p l == 0) ≡ false
unfolding count_if find_addr
count_if-found p a [] g at h = ground arith
count_if-found p a (f ∷ l) g at h = ground (arith, count_if-found p a l g)

module _ (f : DiscoveredItem → DiscoveredItem)
    (keeps : (e : DiscoveredItem) → fixed (f e) ≡ fixed e) where
  pub find_addr-map :
      (b : ℕ) (l : List DiscoveredItem) (e : DiscoveredItem)
      → find_addr b l ≡ some e
      → find_addr b (map f l) ≡ some (f e)
  unfolding find_addr
  find_addr-map b [] e at = ground arith
  find_addr-map b (x ∷ l) e at = ground (arith, keeps x, find_addr-map b l e)

  find_addr-update_addr :
      (a b : ℕ) (l : List DiscoveredItem) (e : DiscoveredItem)
      → find_addr b l ≡ some e
      → find_addr b (update_addr a f l) ≡ some (if a == b then f e else e)
  unfolding find_addr update_addr
  find_addr-update_addr a b [] e at = ground arith
  find_addr-update_addr a b (x ∷ l) e at = ground (arith, keeps x, find_addr-update_addr a b l e)

  pub map-fixed : (l : List DiscoveredItem) → map fixed (map f l) ≡ map fixed l
  map-fixed [] = refl
  map-fixed (x ∷ l) = ground (arith, keeps x, map-fixed l)

  update_addr-fixed :
      (a : ℕ) (l : List DiscoveredItem) → map fixed (update_addr a f l) ≡ map fixed l
  unfolding update_addr
  update_addr-fixed a [] = refl
  update_addr-fixed a (x ∷ l) = ground (arith, keeps x, update_addr-fixed a l)

pub update_duplicate-fixed :
    (now a : ℕ) (l : List DiscoveredItem) → map fixed (update_duplicate now a l) ≡ map fixed l
unfolding update_duplicate
update_duplicate-fixed now a l = elim (Option-cases (find_addr a l)) [
  | inl e ↦ rw (e, update_duplicate)
  | inr (g, e) ↦
      rw (e, update_duplicate)
        (update_addr-fixed (settle now _ _) (fixed-settle now _ _) a _
          ∙ map-fixed (mark_duplicate now g) (fixed-mark_duplicate now g) l)
]

is_set-counted :
    (e : DiscoveredItem) (b : Bool) (f : Flag)
    → is_set (record e { has_hidden_duplicates = b }) f ≡ is_set e f
unfolding is_set state_get
is_set-counted e b f = refl

is_set-settle :
    (now m n : ℕ) (e : DiscoveredItem)
    → is_set (settle now m n e) Flag.dst_duplicate
      ≡ (if is_di_streaming now e then not (m == 0) else is_set e Flag.dst_duplicate)
unfolding settle same
is_set-settle now m n e =
    let counted : DiscoveredItem = record e {
      has_hidden_duplicates = not (n == 0) || e.has_hidden_duplicates;
    } in
    ground (
      arith,
      is_set-counted e (not (n == 0) || e.has_hidden_duplicates) Flag.dst_duplicate,
      is_set-state_set counted Flag.dst_duplicate Flag.dst_duplicate,
      is_set-state_clr counted Flag.dst_duplicate Flag.dst_duplicate,
    )

is_set-mark_duplicate :
    (now : ℕ) (g e : DiscoveredItem)
    → is_set (mark_duplicate now g e) Flag.dst_duplicate
      ≡ (conflict now g e || is_set e Flag.dst_duplicate)
unfolding mark_duplicate same
is_set-mark_duplicate now g e =
    ground (arith, is_set-state_set (turn_off Flag.hidden e) Flag.dst_duplicate Flag.dst_duplicate)

pub streaming-fixed :
    (now : ℕ) (e e' : DiscoveredItem)
    → fixed e ≡ fixed e'
    → is_di_streaming now e ≡ is_di_streaming now e'
unfolding is_di_streaming
streaming-fixed now e e' h = ground arith

conflict-streaming :
    (now : ℕ) (g e : DiscoveredItem) → is_di_streaming now e ≡ false → conflict now g e ≡ false
unfolding conflict
conflict-streaming now g e h = ground arith

-- One round of the outer loop, at the address `a`, as the object of address `b` sees it.
update_duplicate_step :
    (now a b : ℕ) (l : List DiscoveredItem) (e : DiscoveredItem)
    → find_addr b l ≡ some e
    → (e' : DiscoveredItem) × (find_addr b (update_duplicate now a l) ≡ some e')
      × (fixed e' ≡ fixed e)
      × (is_di_streaming now e ≡ true
          → (a ≡ b) ⊎ (is_set e Flag.dst_duplicate ≡ duplicated now e l)
          → is_set e' Flag.dst_duplicate ≡ duplicated now e l)
      × (is_di_streaming now e ≡ false → is_set e' Flag.dst_duplicate ≡ is_set e Flag.dst_duplicate)
unfolding update_duplicate duplicated
update_duplicate_step now a b l e at = elim (Option-cases (find_addr a l)) [
  | inl free ↦
      (e, rw (free, update_duplicate) at, refl, (λ s k. ground (arith, k, at, free)), λ s. refl)
  | inr (g, there) ↦
      let active = count_if (conflict now g) l in
      let stale = count_if (stale_duplicate now g) l in
      let marked = mark_duplicate now g e in
      (
        if a == b then settle now active stale marked else marked,
        rw (there, update_duplicate)
            (find_addr-update_addr (settle now active stale) (fixed-settle now active stale) a b _
              marked (find_addr-map (mark_duplicate now g) (fixed-mark_duplicate now g) b l e at)),
        ground (arith, fixed-settle now active stale marked, fixed-mark_duplicate now g e),
        (λ s k. ground (
          arith,
          k,
          s,
          at,
          there,
          is_set-settle now active stale marked,
          is_set-mark_duplicate now g e,
          streaming-fixed now marked e (fixed-mark_duplicate now g e),
          count_if-found (conflict now e) a l g there,
          conflict_sym now g e,
        )),
        (λ s. ground (
          arith,
          s,
          is_set-settle now active stale marked,
          is_set-mark_duplicate now g e,
          streaming-fixed now marked e (fixed-mark_duplicate now g e),
          conflict-streaming now g e s,
        )),
      )
]

pub duplicated-fixed :
    (now : ℕ) (e e' : DiscoveredItem) (l l' : List DiscoveredItem)
    → fixed e ≡ fixed e'
    → map fixed l ≡ map fixed l'
    → duplicated now e l ≡ duplicated now e' l'
unfolding duplicated
duplicated-fixed now e e' l l' h k = ap (λ n. not (n == 0)) (count_if-fixed now e e' l l' h k)

update_duplicates_lem :
    (now b : ℕ) (todo : List ℕ) (l : List DiscoveredItem) (e : DiscoveredItem)
    → find_addr b l ≡ some e
    → (e' : DiscoveredItem) × (find_addr b (update_duplicates now todo l) ≡ some e')
      × (fixed e' ≡ fixed e)
      × (is_di_streaming now e ≡ true
          → (contains todo b ≡ true) ⊎ (is_set e Flag.dst_duplicate ≡ duplicated now e l)
          → is_set e' Flag.dst_duplicate ≡ duplicated now e l)
      × (is_di_streaming now e ≡ false → is_set e' Flag.dst_duplicate ≡ is_set e Flag.dst_duplicate)
unfolding update_duplicates contains
update_duplicates_lem now b [] l e at = (e, at, refl, (λ s k. ground (arith, k)), λ s. refl)
update_duplicates_lem now b (a ∷ todo) l e at =
    let (f, there, same_f, on, off) = update_duplicate_step now a b l e at in
    let (g, last, same_g, on', off') =
      update_duplicates_lem now b todo (update_duplicate now a l) f there in
    let steady : duplicated now f (update_duplicate now a l) ≡ duplicated now e l =
      duplicated-fixed now f e _ l same_f (update_duplicate-fixed now a l) in
    let streams : is_di_streaming now f ≡ is_di_streaming now e = streaming-fixed now f e same_f in
    (
      g,
      last,
      same_g ∙ same_f,
      (λ s k.
          on' (streams ∙ s) (elim (Bool-cases (contains todo b)) [
            | inl later ↦ inl later
            | inr done ↦ inr (on s (ground (arith, k, done)) ∙ sym steady)
          ])
          ∙ steady),
      (λ s. off' (streams ∙ s) ∙ off s),
    )

contains-addresses :
    (b : ℕ) (l : List DiscoveredItem) (e : DiscoveredItem)
    → find_addr b l ≡ some e
    → contains (addresses l) b ≡ true
unfolding contains addresses find_addr
contains-addresses b [] e at = ground arith
contains-addresses b (x ∷ l) e at = ground (arith, contains-addresses b l e)

-- After the second stage an object whose stream is streaming has the duplicate flag if and only if
-- another stream with the same key is streaming; the flag of any other object is as it was.
pub update_duplicates-flag :
    (now b : ℕ) (l : List DiscoveredItem) (e : DiscoveredItem)
    → find_addr b l ≡ some e
    → (e' : DiscoveredItem) × (find_addr b (update_duplicates now (addresses l) l) ≡ some e')
      × (fixed e' ≡ fixed e)
      × (is_set e' Flag.dst_duplicate
          ≡ (if is_di_streaming now e then duplicated now e l else is_set e Flag.dst_duplicate))
update_duplicates-flag now b l e at =
    let (e', there, same_e, on, off) = update_duplicates_lem now b (addresses l) l e at in
    (
      e',
      there,
      same_e,
      elim (Bool-cases (is_di_streaming now e)) [
        | inl s ↦ rw s (on s (inl (contains-addresses b l e at)))
        | inr s ↦ rw s (off s)
      ],
    )
