-- ===== src/Snapshot/Again.antt =====
-- source/snapshot.c, snapshot_Create of a device that another snapshot holds: the creation fails, and what
-- it undoes is the other snapshot's.
use veeamsnap.Prelude.{
  ℕ, ◌≡◌, refl, ap, ◌∙◌, Bool, true, false, some, List, [], ◌∷◌, ◌==◌, ==_iff, ◌&&◌, not,
  if◌then◌else◌, Bool-cases, inl, inr, Status, success, ealready, is_success,
}
use veeamsnap.Snapshot.{
  Tracker, find, replace, capture_one, capture_loop, release_one, release_loop, capture, World, add,
  add_known, add_loop, cleanup, given_twice, listed, create_snapshot,
}
use veeamsnap.Snapshot.Held.{find-replace}

-- A device that a snapshot holds: its table is active and as large as the device.
abbrev pub in_snapshot : ℕ → ℕ → ℕ → ℕ → ℕ → ℕ → Tracker
in_snapshot d disk start capacity id switches = record {
  dev_id = d;
  disk = disk;
  start = start;
  capacity = capacity;
  snapshot_id = id;
  has_defer_io = true;
  is_captured = true;
  has_cbt_map = true;
  cbt_active = true;
  cbt_capacity = capacity;
  switches = switches;
}

-- The device when the creation of another snapshot has failed: nothing of its snapshot is left.
abbrev pub torn : ℕ → ℕ → ℕ → ℕ → ℕ → Tracker
torn d disk start capacity switches = record (in_snapshot d disk start capacity 0 switches) {
  has_defer_io = false;
  is_captured = false;
}

-- The id that `tracking_add` leaves.
abbrev kept_id : ℕ → ℕ → ℕ
kept_id new old = if not (new == 0) && old == 0 then new else old

add_known-held :
    (w : World) (new d disk start capacity id switches : ℕ) (ts : List Tracker)
    → add_known w.device (w.adding d) d new (in_snapshot d disk start capacity id switches) ts
      ≡ (ealready, replace d (in_snapshot d disk start capacity (kept_id new id) switches) ts)
unfolding add_known
add_known-held w new d disk start capacity id switches ts =
    let same : (capacity == capacity) ≡ true = (==_iff capacity capacity).1 refl in
    elim (Bool-cases (not (new == 0) && id == 0)) [
      | inl y ↦ rw (same, y) refl
      | inr n ↦ rw (same, n) refl
    ]

add_held :
    (w : World) (new d disk start capacity id switches : ℕ) (ts : List Tracker)
    → find d ts ≡ some (in_snapshot d disk start capacity id switches)
    → add w.device (w.adding d) d new ts
      ≡ (ealready, replace d (in_snapshot d disk start capacity (kept_id new id) switches) ts)
unfolding add
add_held w new d disk start capacity id switches ts h =
    rw (h, add) (add_known-held w new d disk start capacity id switches ts)

-- The device without its processor.
abbrev let_go : ℕ → ℕ → ℕ → ℕ → ℕ → ℕ → Tracker
let_go d disk start capacity id switches = record (in_snapshot d disk start capacity id switches) {
  has_defer_io = false;
  is_captured = false;
}

module _ (d disk start capacity id switches : ℕ) (ts : List Tracker)
    (h : find d ts ≡ some (in_snapshot d disk start capacity id switches)) where
  capture_loop-held :
      (made : ℕ → Status)
      → made d ≡ success
      → capture_loop made (d ∷ []) ts
        ≡ (ealready, replace d (in_snapshot d disk start capacity id switches) ts)
  unfolding capture_loop capture_one
  capture_loop-held made k = rw (h, capture_loop) (rw k refl)

  release_loop-held :
      (freeze : ℕ → Status)
      → (release_loop freeze (d ∷ []) ts).1
        ≡ replace d (let_go d disk start capacity id switches) ts
  unfolding release_loop release_one
  release_loop-held freeze = elim (Bool-cases (is_success (freeze d))) [
    | inl y ↦ rw (h, release_loop) (rw y refl)
    | inr n ↦ rw (h, release_loop) (rw n refl)
  ]

cleanup_one :
    (d : ℕ) (ts : List Tracker) (t : Tracker)
    → find d ts ≡ some t
    → cleanup (d ∷ []) ts ≡ replace d (record t { snapshot_id = 0 }) ts
unfolding cleanup
cleanup_one d ts t h = rw (h, cleanup) refl

capture-held :
    (made : ℕ → Status) (is_corrupted : ℕ → Bool) (freeze : ℕ → Status)
    (d disk start capacity id switches : ℕ) (ts : List Tracker)
    → find d ts ≡ some (in_snapshot d disk start capacity id switches)
    → made d ≡ success
    → let r = capture made is_corrupted freeze (d ∷ []) ts in
      (r.0 ≡ ealready) × (find d r.1 ≡ some (let_go d disk start capacity id switches))
unfolding capture
capture-held made is_corrupted freeze d disk start capacity id switches ts h k =
    let t = in_snapshot d disk start capacity id switches in
    let u = let_go d disk start capacity id switches in
    let ts' = replace d t ts in
    let again : find d ts' ≡ some t = find-replace d ts t t h refl in
    let freed : find d (release_loop freeze (d ∷ []) ts').1 ≡ some u =
      ap (λ (q : List Tracker). find d q)
        (release_loop-held d disk start capacity id switches ts' again freeze)
      ∙ find-replace d ts' t u again refl in
    rw (capture_loop-held d disk start capacity id switches ts h made k) (refl, freed)

-- `snapshot_Create` of one device that a snapshot holds already, whose table is active and of the
-- device's size, fails with EALREADY where a defer IO processor can be made, and the device is then no
-- longer captured by the snapshot that held it: its processor is gone, and it belongs to no snapshot.
pub create_snapshot_again :
    (w : World) (new d disk start capacity id switches : ℕ) (ts : List Tracker)
    → find d ts ≡ some (in_snapshot d disk start capacity id switches)
    → w.made d ≡ success
    → let r = create_snapshot w (some new) (d ∷ []) ts in
      (r.0 ≡ ealready) × (find d r.1 ≡ some (torn d disk start capacity switches))
unfolding create_snapshot add_loop given_twice listed
create_snapshot_again w new d disk start capacity id switches ts h k =
    let id' = kept_id new id in
    let t = in_snapshot d disk start capacity id switches in
    let t' = in_snapshot d disk start capacity id' switches in
    let ts1 = replace d t' ts in
    let found : find d ts1 ≡ some t' = find-replace d ts t t' h refl in
    let added : add w.device (w.adding d) d new ts ≡ (ealready, ts1) =
      add_held w new d disk start capacity id switches ts h in
    let captured =
      capture-held w.made w.is_corrupted w.freeze d disk start capacity id' switches ts1 found k in
    let u = let_go d disk start capacity id' switches in
    let ts2 = (capture w.made w.is_corrupted w.freeze (d ∷ []) ts1).1 in
    let cleaned : find d (cleanup (d ∷ []) ts2) ≡ some (torn d disk start capacity switches) =
      ap (λ (q : List Tracker). find d q) (cleanup_one d ts2 u captured.1)
      ∙ find-replace d ts2 u (torn d disk start capacity switches) captured.1 refl in
    rw added (rw captured.0 (refl, cleaned))
