-- ===== src/Snapshot/Tests.antt =====
-- Runs of the creation of snapshots.
use veeamsnap.Prelude.{
  ℕ, ◌≡◌, ◌⊎◌, refl, Bool, true, false, some, List, [], ◌∷◌, All, Status, success, ealready, enomem,
  is_success, ◌==◌, if◌then◌else◌, arith,
}
use veeamsnap.Snapshot.{
  Tracker, created, find, find_intersection, capture, capture_loop, capture_one, replace,
  corrupted_loop, release_loop, release_one, World, Adding, create_snapshot,
}
use veeamsnap.Snapshot.Overlap.{Answer, find_intersection_lem}
use veeamsnap.Snapshot.Held.{held}
use veeamsnap.Snapshot.Capture.{capture_lem}
use veeamsnap.Snapshot.Again.{in_snapshot, torn, create_snapshot_again}

-- A tracked device that no snapshot holds.
abbrev idle : ℕ → ℕ → ℕ → Tracker
idle d start capacity = record (torn d 8 start capacity 3) { cbt_capacity = capacity }

abbrev trackers : List Tracker
trackers = idle 1 0 100 ∷ idle 2 100 50 ∷ []

abbrev nothing_corrupted : ℕ → Bool
nothing_corrupted d = false

abbrev all_well : ℕ → Status
all_well d = success

-- The processor of device 2 cannot be made.
abbrev second_fails : ℕ → Status
second_fails d = if d == 2 then enomem else success

both : (capture all_well nothing_corrupted all_well (1 ∷ 2 ∷ []) trackers).0 ≡ success
unfolding capture capture_loop capture_one find replace corrupted_loop
both = refl

one_of_two :
    capture second_fails nothing_corrupted all_well (1 ∷ 2 ∷ []) trackers
    ≡ (enomem, record (idle 1 0 100) { switches = 4 } ∷ idle 2 100 50 ∷ [])
unfolding release_loop release_one capture capture_loop capture_one find replace corrupted_loop
one_of_two = refl

find_intersection_lem_example : Answer 8 90 110 trackers (find_intersection 8 90 110 trackers)
find_intersection_lem_example =
    find_intersection_lem 8 90 110 trackers (ground arith) (ground arith, (ground arith, tt))

capture_lem_example :
    let r = capture second_fails nothing_corrupted all_well (1 ∷ 2 ∷ []) trackers in
    ((r.0 ≡ success) × All (λ d. held d r.1 ≡ true) (1 ∷ 2 ∷ []))
    ⊎ ((is_success r.0 ≡ false) × All (λ d. held d r.1 ≡ false) (1 ∷ 2 ∷ []))
capture_lem_example =
    capture_lem second_fails nothing_corrupted all_well (1 ∷ 2 ∷ []) trackers (λ d. refl)

abbrev adding : Adding
adding = record { cbt_made = true; removed = success; opened = success; creation = created }

abbrev world : World
world = record {
  device = λ d. (8, 0, 100);
  adding = λ d. adding;
  made = all_well;
  is_corrupted = nothing_corrupted;
  freeze = all_well;
  images = success;
}

abbrev taken : List Tracker
taken = in_snapshot 1 8 0 100 70 3 ∷ []

create_snapshot_again_example :
    let r = create_snapshot world (some 71) (1 ∷ []) taken in
    (r.0 ≡ ealready) × (find 1 r.1 ≡ some (torn 1 8 0 100 3))
unfolding find
create_snapshot_again_example = create_snapshot_again world 71 1 8 0 100 70 3 taken refl refl
