-- ===== src/Snapshot.antt =====
-- source/snapshot.c, with the parts of tracker.c and tracking.c that it calls, as built with
-- VEEAMSNAP_BLK_FREEZE: the trackers of the devices, the snapshots that capture them, and the creation of
-- a snapshot. What the kernel and the other components answer is given for each device: the result of
-- the defer IO processor, of the freeze, whether the snapstore device is corrupted, and how a tracker is
-- made.
pub mod Again
pub mod Capture
mod Held
pub mod Overlap
mod Release
mod Tests
use veeamsnap.Prelude.{
  ℕ, zero, suc, ◌+◌, Bool, true, false, Option, none, some, List, [], ◌∷◌, ◌++◌, ◌&&◌, ◌||◌, not,
  ltb, leb, ◌==◌, if◌then◌else◌, Status, success, enodata, enomem, ealready, edeadlk, einval,
  enodev, is_success, Memory, alloc,
}

-- `tracker_t`, with the disk, the start and the capacity of its device, and how often its table was
-- switched
pub record Tracker : Type 0 where
  pub dev_id : ℕ
  pub disk : ℕ
  pub start : ℕ
  pub capacity : ℕ
  pub snapshot_id : ℕ
  pub has_defer_io : Bool
  pub is_captured : Bool
  pub has_cbt_map : Bool
  pub cbt_active : Bool
  pub cbt_capacity : ℕ
  pub switches : ℕ

-- `tracker_find_by_dev_id`
pub find : ℕ → List Tracker → Option Tracker
find d [] = none
find d (t ∷ ts) = if t.dev_id == d then some t else find d ts

-- The tracker that the search finds, changed in place.
pub replace : ℕ → Tracker → List Tracker → List Tracker
replace d t' [] = []
replace d t' (t ∷ ts) = if t.dev_id == d then t' ∷ ts else t ∷ replace d t' ts

-- The tests of `tracker_find_intersection`, of the sectors [b1, e1) and [b2, e2)
pub have_intersection : ℕ → ℕ → ℕ → ℕ → Bool
have_intersection b1 e1 b2 e2 =
    (leb b2 b1 && leb e1 e2)
    || (leb b1 b2 && leb e2 e1)
    || (leb b1 b2 && ltb b2 e1)
    || (ltb b1 e2 && leb e2 e1)

-- `tracker_find_intersection`
pub find_intersection : ℕ → ℕ → ℕ → List Tracker → Option Tracker
find_intersection disk b1 e1 [] = none
find_intersection disk b1 e1 (t ∷ ts) =
    if t.disk == disk && have_intersection b1 e1 t.start (t.start + t.capacity)
    then some t
    else find_intersection disk b1 e1 ts

-- `_tracker_capture_snapshot`, where `defer_io_create` ends with `made`
pub capture_one : Status → Tracker → Status × Tracker
capture_one made t =
    if not (is_success made) then (made, t) else if t.has_defer_io then (ealready, t) else (
      success,
      record t {
        has_defer_io = true;
        is_captured = true;
        switches = if t.has_cbt_map then t.switches + 1 else t.switches;
      },
    )

-- The first loop of `tracker_capture_snapshot`
pub capture_loop : (ℕ → Status) → List ℕ → List Tracker → Status × List Tracker
capture_loop made [] ts = (success, ts)
capture_loop made (d ∷ ds) ts = elim (find d ts) [
  | none ↦ (enodata, ts)
  | some t ↦
      let r = capture_one (made d) t in
      let ts' : List Tracker = replace d r.1 ts in
      let rest = capture_loop made ds ts' in if is_success r.0 then rest else (r.0, ts')
]

-- The second loop: whether a snapstore device is corrupted. A device that is not found is passed over,
-- and its result stands if it is the last.
pub corrupted_loop : (ℕ → Bool) → List ℕ → List Tracker → Status → Status
corrupted_loop is_corrupted [] ts res = res
corrupted_loop is_corrupted (d ∷ ds) ts res = elim (find d ts) [
  | none ↦ corrupted_loop is_corrupted ds ts enodata
  | some t ↦
      let rest = corrupted_loop is_corrupted ds ts success in
      if is_corrupted d then edeadlk else rest
]

-- `_tracker_release_snapshot`, of which the result is that of the freeze
pub release_one : Tracker → Tracker
release_one t = if t.has_defer_io then record t { has_defer_io = false; is_captured = false } else t

-- `tracker_release_snapshot`: a failed freeze ends the loop, after its device was released.
pub release_loop : (ℕ → Status) → List ℕ → List Tracker → Status × List Tracker
release_loop freeze [] ts = (success, ts)
release_loop freeze (d ∷ ds) ts = elim (find d ts) [
  | none ↦ release_loop freeze ds ts
  | some t ↦
      let ts' : List Tracker = replace d (release_one t) ts in
      let rest = release_loop freeze ds ts' in
      if is_success (freeze d) then rest else (freeze d, ts')
]

-- `tracker_capture_snapshot`
pub capture :
    (ℕ → Status) → (ℕ → Bool) → (ℕ → Status) → List ℕ → List Tracker → Status × List Tracker
capture made is_corrupted freeze ds ts =
    let r = capture_loop made ds ts in
    let res : Status = if is_success r.0 then corrupted_loop is_corrupted ds r.1 success else r.0 in
    if is_success res then (success, r.1) else (res, (release_loop freeze ds r.1).1)

-- What `tracker_create` comes to: a tracker, a failure after which it is removed, or a failure to open
-- the device, after which it is left in the container.
pub data Creation : Type 0 where
  created : Creation
  failed : Status → Creation
  unopened : Status → Creation

-- The tracker of a device as `tracker_create` makes it.
pub new_tracker : (ℕ → ℕ × ℕ × ℕ) → ℕ → ℕ → Tracker
new_tracker device d snapshot_id = record {
  dev_id = d;
  disk = (device d).0;
  start = (device d).1;
  capacity = (device d).2;
  snapshot_id = snapshot_id;
  has_defer_io = false;
  is_captured = false;
  has_cbt_map = true;
  cbt_active = true;
  cbt_capacity = (device d).2;
  switches = 0;
}

-- `tracker_create`
pub create : (ℕ → ℕ × ℕ × ℕ) → Creation → ℕ → ℕ → List Tracker → Status × List Tracker
create device created d snapshot_id ts = (success, ts ++ new_tracker device d snapshot_id ∷ [])
create device (failed s) d snapshot_id ts = (s, ts)
create device (unopened s) d snapshot_id ts = (
  s,
  ts
      ++ record (new_tracker device d 0) {
        has_cbt_map = false;
        cbt_active = false;
        cbt_capacity = 0;
      }
        ∷ [],
)

-- `container_sl_free` of the tracker that a search finds
pub remove : ℕ → List Tracker → List Tracker
remove d [] = []
remove d (t ∷ ts) = if t.dev_id == d then ts else t ∷ remove d ts

-- What `tracking_add` meets: the table that it makes, the results of `tracker_remove` and of
-- `blk_dev_open`, and the tracker.
pub record Adding : Type 0 where
  pub cbt_made : Bool
  pub removed : Status
  pub opened : Status
  pub creation : Creation

-- `tracking_add` of a device that has a tracker
pub add_known : (ℕ → ℕ × ℕ × ℕ) → Adding → ℕ → ℕ → Tracker → List Tracker → Status × List Tracker
add_known device a d snapshot_id t ts =
    let t1 : Tracker =
      if not (snapshot_id == 0) && t.snapshot_id == 0
      then record t { snapshot_id = snapshot_id }
      else t in
    let with_table : Tracker = record t1 {
      has_cbt_map = true;
      cbt_active = true;
      cbt_capacity = t.capacity;
    } in
    let made = create device a.creation d snapshot_id (remove d ts) in
    if not t.has_cbt_map
    then (if a.cbt_made then (ealready, replace d with_table ts) else (enomem, replace d t1 ts))
    else if not t.cbt_active || not (t.cbt_capacity == t.capacity)
    then (if is_success a.removed
        then (if is_success made.0 then ealready else made.0, made.1)
        else (a.removed, remove d ts))
    else (ealready, replace d t1 ts)

-- `tracking_add` of a device that has none: the first tracker that shares sectors with it is removed. A
-- tracker holds a reference to the tracker disk of its disk, so a search for it fails only where the disk
-- has no trackers.
pub add_unknown : (ℕ → ℕ × ℕ × ℕ) → Adding → ℕ → ℕ → List Tracker → Status × List Tracker
add_unknown device a d snapshot_id ts =
    let old = find_intersection (device d).0 (device d).1 ((device d).1 + (device d).2) ts in
    if not (is_success a.opened) then (a.opened, ts) else elim old [
      | none ↦ create device a.creation d snapshot_id ts
      | some t ↦
          if is_success a.removed
          then create device a.creation d snapshot_id (remove t.dev_id ts)
          else (a.removed, remove t.dev_id ts)
    ]

-- `tracking_add`
pub add : (ℕ → ℕ × ℕ × ℕ) → Adding → ℕ → ℕ → List Tracker → Status × List Tracker
add device a d snapshot_id ts = elim (find d ts) [
  | some t ↦ add_known device a d snapshot_id t ts
  | none ↦ add_unknown device a d snapshot_id ts
]

-- The loop of `snapshot_Create` over `tracking_add`; ENODEV for no device
pub add_loop :
    (ℕ → ℕ × ℕ × ℕ) → (ℕ → Adding) → ℕ → List ℕ → Status → List Tracker → Status × List Tracker
add_loop device a snapshot_id [] res ts = (res, ts)
add_loop device a snapshot_id (d ∷ ds) res ts =
    let r = add device (a d) d snapshot_id ts in
    let ok : Bool = elim r.0 [ ealready ↦ true | success ↦ true | _ ↦ false ] in
    let rest = add_loop device a snapshot_id ds success r.1 in if ok then rest else r

-- `_snapshot_remove_device`, in the loop of `_snapshot_cleanup`
pub cleanup : List ℕ → List Tracker → List Tracker
cleanup [] ts = ts
cleanup (d ∷ ds) ts = elim (find d ts) [
  | none ↦ cleanup ds ts
  | some t ↦ cleanup ds (replace d (record t { snapshot_id = 0 }) ts)
]

pub listed : ℕ → List ℕ → Bool
listed d [] = false
listed d (x ∷ xs) = if d == x then true else listed d xs

-- The loops that look for a device that was given twice.
pub given_twice : List ℕ → Bool
given_twice [] = false
given_twice (d ∷ ds) = if listed d ds then true else given_twice ds

-- What `snapshot_Create` meets.
pub record World : Type 0 where
  pub device : ℕ → ℕ × ℕ × ℕ
  pub adding : ℕ → Adding
  pub made : ℕ → Status
  pub is_corrupted : ℕ → Bool
  pub freeze : ℕ → Status
  pub images : Status

-- `snapshot_Create` of a snapshot with the id of its structure, `none` where that is not allocated
pub create_snapshot : World → Option ℕ → List ℕ → List Tracker → Status × List Tracker
create_snapshot w none ds ts = (if given_twice ds then einval else enomem, ts)
create_snapshot w (some id) ds ts =
    let added = add_loop w.device w.adding id ds enodev ts in
    let captured = capture w.made w.is_corrupted w.freeze ds added.1 in
    if given_twice ds
    then (einval, ts)
    else if not (is_success added.0)
    then (added.0, cleanup ds added.1)
    else if not (is_success captured.0)
    then (captured.0, cleanup ds captured.1)
    else if not (is_success w.images)
    then (w.images, cleanup ds (release_loop w.freeze ds captured.1).1)
    else captured
