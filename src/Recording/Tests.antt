-- ===== src/Recording/Tests.antt =====
-- The theorems about recording at one stream.
use ltntstools.Base.{ℕ, refl, Bool, true, false, [], ◌∷◌}
use ltntstools.Item.{is_set, state_get, mask, position}
use ltntstools.Item.Samples.{sample, first_headers}
use ltntstools.Recording.{Recorder, Options, Disk, toggled, aborted, packet, run}
use ltntstools.Recording.Lifecycle.{HasWriter, run-HasWriter}

abbrev options : Options
options = record { record_as_ts = true; skip_free_space_check = false }

abbrev full_disk : Disk
full_disk = record { now = 100; alloc_ok = true; object_ok = true; low_space = true }

-- A stream with the given state word, and with or without a writer.
abbrev recorder : ℕ → Bool → Recorder
recorder state writer = record {
  item = sample 1 first_headers 24 state 0;
  writer = writer;
  record_as_ts = false;
  last_free_space_check = 0;
}

-- The operator starts the recording, the disk is full, and two packets come.
run-HasWriter_example :
    HasWriter (
      run options (recorder 0 false) (toggled ∷ packet full_disk ∷ packet full_disk ∷ aborted ∷ []))
unfolding is_set state_get mask position
run-HasWriter_example =
    run-HasWriter options (toggled ∷ packet full_disk ∷ packet full_disk ∷ aborted ∷ [])
      (recorder 0 false) refl
