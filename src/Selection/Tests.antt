-- ===== src/Selection/Tests.antt =====
-- The theorems about the keys at lists of three streams.
use ltntstools.Base.{◌≡◌, refl, [], ◌∷◌}
use ltntstools.Item.{Flag, DiscoveredItem, is_set, state_get, mask, position}
use ltntstools.Item.Samples.{sample, first_headers}
use ltntstools.Selection.{turn_on, turn_off, select_next}
use ltntstools.Selection.Cursor.{select_next_moves}

abbrev selected_item : DiscoveredItem
selected_item = sample 1 first_headers 24 1 0

abbrev hidden_item : DiscoveredItem
hidden_item = sample 2 first_headers 24 512 0

abbrev plain_item : DiscoveredItem
plain_item = sample 3 first_headers 24 0 0

select_next_moves_example :
    select_next (plain_item ∷ selected_item ∷ hidden_item ∷ plain_item ∷ [])
    ≡ plain_item
      ∷ turn_off Flag.selected selected_item
      ∷ hidden_item
      ∷ turn_on Flag.selected plain_item
      ∷ []
unfolding is_set state_get mask position
select_next_moves_example =
    select_next_moves (plain_item ∷ []) (hidden_item ∷ []) [] selected_item plain_item (refl, tt)
      refl refl (refl, tt) refl refl
