-- ===== src/TrackerQueue/Reachable.antt =====
-- What holds of the tables of the disks in every state that the clients can reach.
use mathlib.Core.Path.{subst}
use veeamsnap.Prelude.{
  ℕ, ◌<◌, ◌≡◌, refl, sym, ap, ◌∙◌, Option, none, some, [], Option-cases, inl, inr, arith,
}
use veeamsnap.TrackerQueue.{driver, tracking, TrackerDisk, find}
use veeamsnap.TrackerQueue.Laws.{holds, Entry, find-All, find-none}
use veeamsnap.TrackerQueue.System.{
  System, Step, Reach, IsValid, give_up, search, insert, fail, release, here, next,
}
use veeamsnap.TrackerQueue.Create.{search_step-IsValid, insert_step-IsValid}
use veeamsnap.TrackerQueue.Put.{put_step-IsValid}

Step-IsValid : {native : ℕ → ℕ} {s t : System} → Step s t → IsValid native s → IsValid native t
unfolding give_up
Step-IsValid {native} (search s disk) v = search_step-IsValid native s disk v
Step-IsValid {native} (insert s disk address h absent fresh) v =
    insert_step-IsValid native s disk address v absent fresh
Step-IsValid {native} (fail s disk h) v = record {
  entries = v.entries;
  distinct = v.distinct;
  untracked = v.untracked;
  unheld = v.unheld;
}
Step-IsValid {native} (release s address h) v = put_step-IsValid native s address v h

Reach-IsValid : {native : ℕ → ℕ} {s : System} → Reach native s → IsValid native s
Reach-IsValid here = record {
  entries = tt;
  distinct = tt;
  untracked = λ d all. refl;
  unheld = λ a all. refl;
}
Reach-IsValid (next r st) = Step-IsValid st (Reach-IsValid r)

-- What the table of a disk is, by the entry that a search for it finds.
abbrev pub TableOf : (ℕ → ℕ) → System → ℕ → Option TrackerDisk → Type 0
TableOf native s d none = s.registry.fops d ≡ driver (native d)
TableOf native s d (some e) =
    (s.registry.fops d ≡ tracking e.address)
    × (e.original_fops ≡ driver (native d))
    × (e.kref ≡ holds e.address s.held)
    × (0 < e.kref)

-- In every state that the clients can reach by searches, insertions, failures and puts in any
-- order, where each insertion is of a disk that is still not tracked when its critical section
-- begins, as the search before it found: a disk that a search does not find has the table of its
-- driver; for one that it finds, the table is that of the entry, which saved the driver's table
-- and not a tracking one, and counts exactly the references that are held to it, one or more.
pub Reach-TableOf :
    {native : ℕ → ℕ} {s : System}
    → Reach native s
    → (d : ℕ) → TableOf native s d (find d s.registry.container)
Reach-TableOf {native} {s} r d =
    let v = Reach-IsValid r in
    elim (Option-cases (find d s.registry.container)) [
      | inl absent ↦
          subst (TableOf native s d) (sym absent)
            (v.untracked d (find-none d s.registry.container absent))
      | inr (e, found) ↦
          let is_e =
            find-All (Entry native s.registry.fops s.held) d s.registry.container e found
              v.entries in
          subst (TableOf native s d) (sym found) (
            ap s.registry.fops (sym is_e.1) ∙ is_e.0.1,
            is_e.0.0 ∙ ap (λ (i : ℕ). driver (native i)) is_e.1,
            is_e.0.2,
            is_e.0.3,
          )
    ]

-- Where the clients hold no reference, every disk has the table of its driver again.
pub Reach-restored :
    {native : ℕ → ℕ} {s : System}
    → Reach native s
    → s.held ≡ []
    → (d : ℕ) → s.registry.fops d ≡ driver (native d)
Reach-restored {native} {s} r none_held d =
    let table = Reach-TableOf r d in
    elim (Option-cases (find d s.registry.container)) [
      | inl absent ↦ subst (TableOf native s d) absent table
      | inr (e, found) ↦
          let t = subst (TableOf native s d) found table in
          absurd (ground (arith, t.2, t.3, ap (holds e.address) none_held))
    ]
