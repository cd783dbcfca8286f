-- ===== src/Housekeeping.antt =====
-- discovered_items_housekeeping (src/nic_monitor_di.c): every six seconds the stale duplicates are
-- hidden, the duplicate flags are computed again, and what has been hidden for minutes is freed.
-- `none` stands for a fault: a removal outside the table of the cache.
pub mod Duplicates
pub mod Purge
pub mod Alike
pub mod Consistent
mod Tests
use ltntstools.Base.{
  ℕ, ◌+◌, ◌*◌, Bool, true, false, not, ◌&&◌, ◌||◌, Option, none, some, List, [], ◌∷◌, map, ltb,
  ◌==◌, if◌then◌else◌,
}
use ltntstools.Item.{Flag, DiscoveredItem, is_set, network_addr_compare}
use ltntstools.Selection.{turn_on, turn_off}
use ltntstools.HashIndex
use ltntstools.HashIndex.{HashIndex}
use ltntstools.Monitor.{ToolContext, find_addr, update_addr, is_di_dst_duplicate}

unfoldable pub is_di_streaming : ℕ → DiscoveredItem → Bool
is_di_streaming now di = not (ltb (di.last_updated + 5) now)

-- The body of the first loop.
unfoldable pub hide_stale : ℕ → DiscoveredItem → DiscoveredItem
hide_stale now e =
    if is_set e Flag.dst_duplicate
    then if is_di_streaming now e then turn_off Flag.hidden e else turn_on Flag.hidden e
    else e

-- The tests of the second loop on a pair: another stream to the same destination; and one of
-- those where both are streaming.
unfoldable pub same_destination : DiscoveredItem → DiscoveredItem → Bool
same_destination e f = not (network_addr_compare e.headers f.headers) && is_di_dst_duplicate e f

unfoldable pub conflict : ℕ → DiscoveredItem → DiscoveredItem → Bool
unfolding same_destination
conflict now e f = same_destination e f && is_di_streaming now e && is_di_streaming now f

unfoldable pub stale_duplicate : ℕ → DiscoveredItem → DiscoveredItem → Bool
unfolding same_destination
stale_duplicate now e f =
    same_destination e f && is_di_streaming now e && not (is_di_streaming now f)

-- What the inner loop does to one `f`.
unfoldable pub mark_duplicate : ℕ → DiscoveredItem → DiscoveredItem → DiscoveredItem
unfolding conflict
mark_duplicate now e f =
    if conflict now e f then turn_on Flag.dst_duplicate (turn_off Flag.hidden f) else f

-- `numberActiveDuplicates` counts these.
unfoldable pub count_if : (DiscoveredItem → Bool) → List DiscoveredItem → ℕ
count_if p [] = 0
count_if p (f ∷ l) = if p f then 1 + count_if p l else count_if p l

-- What the outer loop does to `e` after the inner one.
unfoldable pub settle : ℕ → ℕ → ℕ → DiscoveredItem → DiscoveredItem
settle now active stale e =
    let counted : DiscoveredItem = record e {
      has_hidden_duplicates = not (stale == 0) || e.has_hidden_duplicates;
    } in
    if is_di_streaming now e
    then if not (active == 0)
      then turn_on Flag.dst_duplicate counted
      else turn_off Flag.dst_duplicate counted
    else counted

-- The outer loop at the object of one address.
unfoldable pub update_duplicate : ℕ → ℕ → List DiscoveredItem → List DiscoveredItem
unfolding mark_duplicate count_if conflict stale_duplicate
update_duplicate now a l = elim (find_addr a l) [
  | none ↦ l
  | some e ↦
      update_addr a (settle now (count_if (conflict now e) l) (count_if (stale_duplicate now e) l))
        (map (mark_duplicate now e) l)
]

unfoldable pub addresses : List DiscoveredItem → List ℕ
addresses l = map (λ e. e.addr) l

-- The outer loop, over the addresses in the order of the list, which does not change meanwhile.
unfoldable pub update_duplicates : ℕ → List ℕ → List DiscoveredItem → List DiscoveredItem
unfolding update_duplicate
update_duplicates now [] l = l
update_duplicates now (a ∷ rest) l = update_duplicates now rest (update_duplicate now a l)

-- The test of the third loop.
unfoldable pub expired : ℕ → DiscoveredItem → Bool
expired now e =
    is_set e Flag.hidden && not (e.last_updated == 0) && ltb (e.last_updated + 3 * 60) now

-- The third loop: an expired object leaves the list and, in discovered_item_free, the cache.
unfoldable pub purge :
    ℕ → List DiscoveredItem → HashIndex → Option (List DiscoveredItem × HashIndex)
unfolding expired
purge now [] index = some ([], index)
purge now (e ∷ rest) index = elim (expired now e) [
  | true ↦ elim (HashIndex.remove index e.cache_hash_key e.addr) [
    | none ↦ none
    | some index' ↦ purge now rest index'
  ]
  | false ↦ elim (purge now rest index) [ none ↦ none | some (l, index') ↦ some (e ∷ l, index') ]
]

unfoldable pub housekeeping : ℕ → ToolContext → Option ToolContext
unfolding hide_stale update_duplicates addresses purge
housekeeping now ctx =
    if ltb now (ctx.last_list_housekeeping + 6)
    then some ctx
    else elim (purge now
        (update_duplicates now (addresses ctx.list) (map (hide_stale now) ctx.list))
        ctx.hash_index) [
          | none ↦ none
          | some (list, index) ↦
              some (record ctx { list = list; hash_index = index; last_list_housekeeping = now })
        ]
