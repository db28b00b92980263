-- ===== src/TrackerQueue.antt =====
-- source/tracker_queue.c and tracker_queue.h, as built with VEEAMSNAP_DISK_SUBMIT_BIO: the disks whose
-- table of operations is replaced by one that calls the tracking. A `tracker_disk_t` is counted by its
-- references; the first one replaces the disk's table and the last one puts the old table back. Each
-- search, each insertion and each put is one critical section of the lock.
pub mod Laws
mod Puts
pub mod System
mod Create
mod Put
pub mod Reachable
pub mod Race
mod Tests
use veeamsnap.Prelude.{
  ℕ, zero, suc, ◌+◌, ◌-◌, Bool, true, false, Option, none, some, List, [], ◌∷◌, ◌++◌, ◌==◌,
  if◌then◌else◌, Status, success, enomem, enosys,
}

-- What `disk->fops` points to: a driver's table, or the table of the tracker disk at an address.
pub data Fops : Type 0 where
  driver : ℕ → Fops
  tracking : ℕ → Fops

-- `tracker_disk_t`, with its address
pub record TrackerDisk : Type 0 where
  pub address : ℕ
  pub kref : ℕ
  pub disk : ℕ
  pub original_fops : Fops

-- `tracker_disk_container`, and `fops` of every disk
pub record Registry : Type 0 where
  pub container : List TrackerDisk
  pub fops : ℕ → Fops

abbrev pub set_fops : ℕ → Fops → (ℕ → Fops) → ℕ → Fops
set_fops disk f fops d = if d == disk then f else fops d

-- The loop of `__tracker_disk_find`.
pub find : ℕ → List TrackerDisk → Option TrackerDisk
find disk [] = none
find disk (x ∷ xs) = if x.disk == disk then some x else find disk xs

-- `kref_get` of the tracker disk that the loop finds.
pub get_ref : ℕ → List TrackerDisk → List TrackerDisk
get_ref disk [] = []
get_ref disk (x ∷ xs) =
    if x.disk == disk then record x { kref = x.kref + 1 } ∷ xs else x ∷ get_ref disk xs

-- `tracker_disk_find_and_get`
pub find_and_get : ℕ → Registry → Option TrackerDisk × Registry
find_and_get disk r = (find disk r.container, record r { container = get_ref disk r.container })

-- The second half of `tracker_disk_create_or_get`: the tracker disk at `address` replaces the table.
pub insert_disk : ℕ → ℕ → Registry → Registry
insert_disk disk address r = record {
  container =
      r.container
      ++ record { address = address; kref = 1; disk = disk; original_fops = r.fops disk } ∷ [];
  fops = set_fops disk (tracking address) r.fops;
}

-- `tracker_disk_create_or_get`: `allocated` is what `dbg_kzalloc` gives, and `has_entry` whether the
-- kernel's `blk_mq_submit_bio` was found.
pub create_or_get : ℕ → Option ℕ → Bool → Registry → Status × Option ℕ × Registry
create_or_get disk allocated has_entry r =
    let found = find_and_get disk r in
    elim found.0 [
      | some x ↦ (success, some x.address, found.1)
      | none ↦ elim allocated [
        | none ↦ (enomem, none, found.1)
        | some address ↦
            if has_entry
            then (success, some address, insert_disk disk address found.1)
            else (enosys, none, found.1)
      ]
    ]

-- The tracker disk at an address, and the container without the reference that is put; the last
-- reference takes it out.
pub at_address : ℕ → List TrackerDisk → Option TrackerDisk
at_address address [] = none
at_address address (x ∷ xs) = if x.address == address then some x else at_address address xs

pub put_ref : ℕ → List TrackerDisk → List TrackerDisk
put_ref address [] = []
put_ref address (x ∷ xs) =
    if x.address == address
    then (if x.kref == 1 then xs else record x { kref = x.kref - 1 } ∷ xs)
    else x ∷ put_ref address xs

-- The table that `tracker_disk_free` puts back, where the reference was the last.
pub restore : Option TrackerDisk → (ℕ → Fops) → ℕ → Fops
restore none fops = fops
restore (some x) fops = if x.kref == 1 then set_fops x.disk x.original_fops fops else fops

-- `tracker_disk_put`
pub put : ℕ → Registry → Registry
put address r = record {
  container = put_ref address r.container;
  fops = restore (at_address address r.container) r.fops;
}
