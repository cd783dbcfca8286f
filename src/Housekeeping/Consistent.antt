-- ===== src/Housekeeping/Consistent.antt =====
-- The housekeeping as a whole, discovered_items_housekeeping: the list and the cache after a run.
use ltntstools.Base.{
  ℕ, ◌+◌, ◌≤◌, ◌≡◌, ◌≢◌, refl, sym, ◌∙◌, ap, ◌⊎◌, inl, inr, true, false, not, ◌&&◌, some, List, [],
  ◌∷◌, map, arith, ltb, ◌==◌, Bool-cases, ==_iff, All,
}
use ltntstools.HashIndex.{HashIndex, contains, dead}
use ltntstools.Item.{Flag, DiscoveredItem, is_set}
use ltntstools.Monitor.{ToolContext, find_addr}
use ltntstools.Monitor.Store.{Stream, stream_of, Distinct}
use ltntstools.Monitor.Consistency.{IsConsistent}
use ltntstools.Monitor.Findcreate.{IsValid}
use ltntstools.Housekeeping.{
  is_di_streaming, hide_stale, addresses, update_duplicates, expired, housekeeping,
}
use ltntstools.Housekeeping.Alike.{
  Alike, flagged, flagged-Alike, Alike-IsConsistent, fixed-hide_stale,
}
use ltntstools.Housekeeping.Purge.{
  kept, removed, purge_lem, kept-streams, kept-Distinct, kept-SortedFrom,
}
use ltntstools.Housekeeping.Duplicates.{
  fixed, duplicated, update_duplicates-flag, streaming-fixed, duplicated-fixed, find_addr-map,
  map-fixed,
}

kept_before :
    (now a : ℕ) (l : List DiscoveredItem) (s : Stream)
    → Distinct l
    → stream_of a (kept now l) ≡ some s
    → stream_of a l ≡ some s
kept_before now a l s d at = ground (arith, at, kept-streams now a l d)

stays_in :
    (now a : ℕ) (l : List DiscoveredItem) (s : Stream)
    → Distinct l
    → stream_of a (kept now l) ≡ some s
    → (k : ℕ) → removed now l k a ≡ false
stays_in now a l s d at k = elim (kept-streams now a l d) [
  | inl (_, _, none_removed) ↦ none_removed k
  | inr (_, _, inl (_, none_removed)) ↦ none_removed k
  | inr (_, _, inr (gone, _)) ↦ absurd (ground (arith, at, gone))
]

-- What the third stage leaves of a consistent list and cache.
kept-IsConsistent :
    (now : ℕ) (l : List DiscoveredItem) (p p' : HashIndex)
    → IsConsistent l p
    → p'.slots ≡ 65535
    → ((j a : ℕ)
        → a ≢ dead
        → contains (p'.arr j) a ≡ (contains (p.arr j) a && not (removed now l j a)))
    → IsConsistent (kept now l) p'
kept-IsConsistent now l p p' c slots entries =
    let was : (a : ℕ) (s : Stream) → stream_of a (kept now l) ≡ some s → stream_of a l ≡ some s =
      λ a s at. kept_before now a l s c.distinct at in
    let still_followed : (k a : ℕ)
        → a ≢ dead
        → contains (p'.arr k) a ≡ true
        → (a ≡ dead) ⊎ ((s : Stream) × (stream_of a (kept now l) ≡ some s) × (s.1 ≡ k)) =
      λ k a alive among. elim (c.followed k a (ground (arith, entries k a alive, among))) [
        | inl is_dead ↦ inl is_dead
        | inr (s, at, key) ↦ elim (kept-streams now a l c.distinct) [
          | inl (free, _, _) ↦ absurd (ground (arith, free, at))
          | inr (t, bt, inl (still, _)) ↦ inr (t, still, ground (arith, at, bt, key))
          | inr (t, bt, inr (_, gone)) ↦
              absurd (ground (arith, at, bt, key, gone k, entries k a alive, among))
        ]
      ] in
    record {
      slots = slots;
      distinct = kept-Distinct now l c.distinct;
      hashed = λ a s at. c.hashed a s (was a s at);
      inside = λ a s at. c.inside a s (was a s at);
      indexed = λ a s at. ground (
        arith,
        at,
        was a s at,
        stays_in now a l s c.distinct at s.1,
        entries s.1 a (c.not_dead a s (was a s at)),
        c.indexed a s (was a s at),
      );
      not_null = λ a s at. c.not_null a s (was a s at);
      not_dead = λ a s at. c.not_dead a s (was a s at);
      followed = λ k a among. elim (Bool-cases (a == dead)) [
        | inl is_dead ↦ inl ((==_iff a dead).0 is_dead)
        | inr alive ↦ still_followed k a (ground (arith, alive)) among
      ];
      unique = λ a b s t at bt. c.unique a b s t (was a s at) (was b t bt);
    }

find_addr-kept :
    (now b : ℕ) (l : List DiscoveredItem) (e : DiscoveredItem)
    → find_addr b l ≡ some e
    → expired now e ≡ false
    → find_addr b (kept now l) ≡ some e
unfolding find_addr kept
find_addr-kept now b [] e at stays = ground arith
find_addr-kept now b (x ∷ l) e at stays = ground (arith, at, stays, find_addr-kept now b l e)

addresses-hide_stale :
    (now : ℕ) (l : List DiscoveredItem) → addresses (map (hide_stale now) l) ≡ addresses l
unfolding addresses
addresses-hide_stale now [] = refl
addresses-hide_stale now (e ∷ l) =
    ground (arith, fixed-hide_stale now e, addresses-hide_stale now l)

none_expired : (now : ℕ) (l : List DiscoveredItem) → All (λ e. expired now e ≡ false) (kept now l)
unfolding kept
none_expired now [] = tt
none_expired now (e ∷ l) = elim (Bool-cases (expired now e)) [
  | inl gone ↦ rw (gone, kept) (none_expired now l)
  | inr stays ↦ rw (stays, kept) (stays, none_expired now l)
]

streaming-expired :
    (now : ℕ) (e : DiscoveredItem) → is_di_streaming now e ≡ true → expired now e ≡ false
unfolding is_di_streaming expired
streaming-expired now e s = ground arith

-- What a run leaves that is due: a valid context without expired objects, in which every stream
-- stood before.
pub record Kept (now : ℕ) (ctx ctx' : ToolContext) : Type 0 where
  pub valid : IsValid ctx'
  pub none_new :
      (a : ℕ) (s : Stream) → stream_of a ctx'.list ≡ some s → stream_of a ctx.list ≡ some s
  pub cleaned : All (λ e. expired now e ≡ false) ctx'.list

module _ (now : ℕ) (ctx : ToolContext) (v : IsValid ctx)
    (due : ctx.last_list_housekeeping + 6 ≤ now) where
  run :
      (ctx' : ToolContext) × (housekeeping now ctx ≡ some ctx')
      × (ctx'.list ≡ kept now (flagged now ctx.list))
      × Kept now ctx ctx'
  unfolding housekeeping flagged
  run =
      let not_due : ltb now (ctx.last_list_housekeeping + 6) ≡ false = ground (arith, due) in
      let alike : Alike ctx.list (flagged now ctx.list) = flagged-Alike now ctx.list in
      let c : IsConsistent (flagged now ctx.list) ctx.hash_index =
        Alike-IsConsistent alike v.consistent in
      let (p', done, slots, entries) =
        purge_lem now 65535 (flagged now ctx.list) ctx.hash_index c.slots c.inside c.distinct in
      let after : ToolContext = record ctx {
        list = kept now (flagged now ctx.list);
        hash_index = p';
        last_list_housekeeping = now;
      } in
      (
        after,
        rw (not_due, done, housekeeping),
        refl,
        record {
          valid = record {
            sorted = kept-SortedFrom now 0 _ (alike.still_sorted 0 v.sorted);
            consistent = kept-IsConsistent now _ ctx.hash_index p' c slots entries;
          };
          none_new = λ a s at. sym (alike.same_streams a) ∙ kept_before now a _ s c.distinct at;
          cleaned = none_expired now _;
        },
      )

  -- In a valid context a run that is due does not fault; it keeps the list sorted and consistent with the cache, adds
  -- no stream, and leaves no object that is hidden and has been silent for three minutes.
  pub housekeeping-Kept :
      (ctx' : ToolContext) × (housekeeping now ctx ≡ some ctx') × Kept now ctx ctx'
  housekeeping-Kept = let (ctx', done, _, k) = run in (ctx', done, k)

  -- In a valid context a run that is due keeps every object whose stream is streaming, and leaves it the duplicate
  -- flag if and only if another stream with the same key is streaming.
  pub housekeeping-streaming :
      (b : ℕ) (e : DiscoveredItem)
      → find_addr b ctx.list ≡ some e
      → is_di_streaming now e ≡ true
      → (ctx' : ToolContext) × (e' : DiscoveredItem) × (housekeeping now ctx ≡ some ctx')
        × (find_addr b ctx'.list ≡ some e')
        × (fixed e' ≡ fixed e)
        × (is_set e' Flag.dst_duplicate ≡ duplicated now e ctx.list)
  unfolding flagged
  housekeeping-streaming b e at s =
      let hidden : List DiscoveredItem = map (hide_stale now) ctx.list in
      let (ctx', done, list, _) = run in
      let (e', there, same_e, flag) =
        update_duplicates-flag now b hidden (hide_stale now e)
          (find_addr-map (hide_stale now) (fixed-hide_stale now) b ctx.list e at) in
      let same : fixed e' ≡ fixed e = same_e ∙ fixed-hide_stale now e in
      let streams : is_di_streaming now (hide_stale now e) ≡ true =
        streaming-fixed now _ e (fixed-hide_stale now e) ∙ s in
      (
        ctx',
        e',
        done,
        rw list (
            find_addr-kept now b _ e'
              (ap (λ todo. find_addr b (update_duplicates now todo hidden))
                  (sym (addresses-hide_stale now ctx.list))
                ∙ there)
              (streaming-expired now e' (streaming-fixed now e' e same ∙ s))),
        same,
        flag
            ∙ rw streams (
                duplicated-fixed now (hide_stale now e) e hidden ctx.list (fixed-hide_stale now e)
                  (map-fixed (hide_stale now) (fixed-hide_stale now) ctx.list)),
      )
