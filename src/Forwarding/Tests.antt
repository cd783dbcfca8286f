-- ===== src/Forwarding/Tests.antt =====
-- The theorems about forwarding at one stream and a table of three targets.
use ltntstools.Base.{◌≡◌, refl, true, some, [], ◌∷◌}
use ltntstools.Item.{is_set, state_get, mask, position}
use ltntstools.Item.Samples.{sample, first_headers}
use ltntstools.Forwarding.{Handle, null, closed, Forwarder, in_table, toggled, aborted, packet, run}
use ltntstools.Forwarding.Sessions.{IsSettled, over, passing, switching, stopping, run-IsSettled}

abbrev idle : Handle → Forwarder
idle h = record { item = sample 1 first_headers 24 0 0; handle = h }

idle_null-IsSettled : IsSettled (idle null)
unfolding is_set state_get mask position
idle_null-IsSettled = record { no_start = refl; no_stop = refl; open_iff = refl }

idle_closed-IsSettled : IsSettled (idle closed)
unfolding is_set state_get mask position
idle_closed-IsSettled = record { no_start = refl; no_stop = refl; open_iff = refl }

-- A session, a packet within it, its end, and a second session that is aborted.
run-IsSettled_example :
    (f : Forwarder) × (run 3 (idle null) (
        toggled 7
        ∷ packet true
        ∷ packet true
        ∷ toggled 7
        ∷ packet true
        ∷ toggled 7
        ∷ packet true
        ∷ aborted
        ∷ packet true
        ∷ [])
      ≡ some f)
    × IsSettled f
unfolding in_table
run-IsSettled_example =
    run-IsSettled 3
      (toggled 7
        ∷ packet true
        ∷ packet true
        ∷ toggled 7
        ∷ packet true
        ∷ toggled 7
        ∷ packet true
        ∷ aborted
        ∷ packet true
        ∷ [])
      (idle null)
      (switching 7 refl (passing true (switching 7 refl (switching 7 refl (stopping true over)))))
      idle_null-IsSettled
