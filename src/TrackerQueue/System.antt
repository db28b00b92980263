-- ===== src/TrackerQueue/System.antt =====
-- The registry under its clients, who put each reference that they got once. Each critical section is a
-- step: the search of `tracker_disk_create_or_get`, its insertion, and `tracker_disk_put`. A client whose
-- search found nothing is between the two; others may run there.
use veeamsnap.Prelude.{ℕ, ◌<◌, ◌≡◌, ◌≢◌, none, some, List, [], ◌∷◌, All}
use veeamsnap.TrackerQueue.{driver, TrackerDisk, Registry, find, find_and_get, insert_disk, put}
use veeamsnap.TrackerQueue.Laws.{holds, Entry, Distinct}
use veeamsnap.TrackerQueue.Puts.{drop_one}

-- The registry, the references that the clients hold, and the disks of the clients between their search
-- and their insertion.
pub record System : Type 0 where
  pub registry : Registry
  pub held : List ℕ
  pub creating : List ℕ

-- An allocation gives an address that is not in use.
abbrev pub Fresh : ℕ → List TrackerDisk → Type 0
Fresh address xs = All (λ x. x.address ≢ address) xs

-- The search: a reference to what it finds, or a creation begins.
unfoldable pub search_step : ℕ → System → System
search_step disk s =
    let found = find_and_get disk s.registry in
    elim found.0 [
      | some x ↦ record s { registry = found.1; held = x.address ∷ s.held }
      | none ↦ record s { registry = found.1; creating = disk ∷ s.creating }
    ]

-- The insertion, with the first reference.
unfoldable pub insert_step : ℕ → ℕ → System → System
insert_step disk address s = record {
  registry = insert_disk disk address s.registry;
  held = address ∷ s.held;
  creating = drop_one disk s.creating;
}

-- ENOMEM or ENOSYS
unfoldable pub give_up : ℕ → System → System
give_up disk s = record s { creating = drop_one disk s.creating }

unfoldable pub put_step : ℕ → System → System
put_step address s = record s { registry = put address s.registry; held = drop_one address s.held }

-- An insertion is undisturbed: the disk is not tracked when it begins, as the search found it.
pub data Step : System → System → Type 0 where
  search : (s : System) (disk : ℕ) → Step s (search_step disk s)
  insert :
      (s : System) (disk address : ℕ)
      → 0 < holds disk s.creating
      → find disk s.registry.container ≡ none
      → Fresh address s.registry.container
      → Step s (insert_step disk address s)
  fail : (s : System) (disk : ℕ) → 0 < holds disk s.creating → Step s (give_up disk s)
  release : (s : System) (address : ℕ) → 0 < holds address s.held → Step s (put_step address s)

-- No disk is tracked, and each has the table of its driver.
abbrev pub start : (ℕ → ℕ) → System
start native = record {
  registry = record { container = []; fops = λ d. driver (native d) };
  held = [];
  creating = [];
}

pub data Reach (native : ℕ → ℕ) : System → Type 0 where
  here : Reach native (start native)
  next : {s t : System} → Reach native s → Step s t → Reach native t

pub record IsValid (native : ℕ → ℕ) (s : System) : Type 0 where
  pub entries : All (Entry native s.registry.fops s.held) s.registry.container
  pub distinct : Distinct s.registry.container
  pub untracked :
      (d : ℕ) → All (λ x. x.disk ≢ d) s.registry.container → s.registry.fops d ≡ driver (native d)
  pub unheld : (a : ℕ) → All (λ x. x.address ≢ a) s.registry.container → holds a s.held ≡ 0
