-- ===== src/TrackerQueue/Create.antt =====
-- The two critical sections of `tracker_disk_create_or_get` keep the registry and its references in
-- order.
use veeamsnap.Prelude.{
  ℕ, ◌≡◌, ◌≢◌, refl, sym, ap, ◌∙◌, Bool, true, false, Option, none, some, List, [], ◌∷◌, ◌++◌, ◌==◌,
  ==_iff, All, Bool-cases, Option-cases, inl, inr, arith, success,
}
use veeamsnap.TrackerQueue.{
  TrackerDisk, Registry, find, find_and_get, get_ref, insert_disk, create_or_get,
}
use veeamsnap.TrackerQueue.Laws.{
  Entry, Apart, Distinct, All-map, All-append, All-and, find-All, find-none, get_ref-Entry,
  get_ref-Distinct,
}
use veeamsnap.TrackerQueue.System.{System, Fresh, search_step, insert_step, IsValid}

All-last :
    (P : TrackerDisk → Type 0) (xs : List TrackerDisk) (y : TrackerDisk)
    → All P (xs ++ y ∷ [])
    → All P xs × P y
All-last P [] y h = (tt, h.0)
All-last P (x ∷ xs) y h = let r = All-last P xs y h.1 in ((h.0, r.0), r.1)

Distinct-append :
    (xs : List TrackerDisk) (y : TrackerDisk)
    → Distinct xs
    → All (λ x. Apart x y) xs
    → Distinct (xs ++ y ∷ [])
Distinct-append [] y d h = (tt, tt)
Distinct-append (x ∷ xs) y d h =
    (All-append (Apart x) xs (y ∷ []) d.0 (h.0, tt), Distinct-append xs y d.1 h.1)

get_ref-All_back :
    (P : ℕ → ℕ → Type 0) (disk : ℕ) (xs : List TrackerDisk)
    → All (λ x. P x.disk x.address) (get_ref disk xs)
    → All (λ x. P x.disk x.address) xs
unfolding get_ref
get_ref-All_back P disk [] h = tt
get_ref-All_back P disk (x ∷ xs) h = elim (Bool-cases (x.disk == disk)) [
  | inl y ↦ (let q = rw y at h in (q.0, q.1))
  | inr n ↦ (let q = rw n at h in (q.0, get_ref-All_back P disk xs q.1))
]

-- A search that finds nothing takes no reference.
get_ref-none : (disk : ℕ) (xs : List TrackerDisk) → find disk xs ≡ none → get_ref disk xs ≡ xs
unfolding find get_ref
get_ref-none disk [] h = refl
get_ref-none disk (x ∷ xs) h = elim (Bool-cases (x.disk == disk)) [
  | inl y ↦ absurd (ground (arith, h, y))
  | inr n ↦ rw n (ap (◌∷◌ x) (get_ref-none disk xs (sym (rw n refl) ∙ h)))
]

found-IsValid :
    (native : ℕ → ℕ) (s : System) (disk : ℕ) (e : TrackerDisk)
    → IsValid native s
    → find disk s.registry.container ≡ some e
    → IsValid native (record s {
      registry = record s.registry { container = get_ref disk s.registry.container };
      held = e.address ∷ s.held;
    })
found-IsValid native s disk e v found = record {
  entries =
      get_ref-Entry native s.registry.fops s.held disk s.registry.container e found v.entries
        v.distinct;
  distinct = get_ref-Distinct disk s.registry.container v.distinct;
  untracked =
      λ d all. v.untracked d (get_ref-All_back (λ (i a : ℕ). i ≢ d) disk s.registry.container all);
  unheld = λ a all.
      let back = get_ref-All_back (λ (i b : ℕ). b ≢ a) disk s.registry.container all in
      let other = (find-All (λ x. x.address ≢ a) disk s.registry.container e found back).0 in
      ground (arith, v.unheld a back, other);
}

pub insert_step-IsValid :
    (native : ℕ → ℕ) (s : System) (disk address : ℕ)
    → IsValid native s
    → find disk s.registry.container ≡ none
    → Fresh address s.registry.container
    → IsValid native (insert_step disk address s)
unfolding insert_step insert_disk
insert_step-IsValid native s disk address v absent fresh =
    let xs : List TrackerDisk = s.registry.container in
    let no_disk = find-none disk xs absent in
    let here : disk == disk ≡ true = (==_iff disk disk).1 refl in
    let at : address == address ≡ true = (==_iff address address).1 refl in
    record {
      entries =
          All-append _ xs _
            (All-map _ _ xs
              (λ z k. (
                k.0.0,
                (let other : z.disk == disk ≡ false = ground (arith, k.1.0) in rw other k.0.1),
                ground (arith, k.0.2, k.1.1),
                k.0.3,
              ))
              (All-and (Entry native s.registry.fops s.held)
                (λ x. (x.disk ≢ disk) × (x.address ≢ address)) xs v.entries
                (All-and (λ x. x.disk ≢ disk) (λ x. x.address ≢ address) xs no_disk fresh)))
            (
              (
                v.untracked disk no_disk,
                rw here refl,
                ground (arith, at, v.unheld address fresh),
                omega arith,
              ),
              tt,
            );
      distinct = Distinct-append xs _ v.distinct (
          All-map _ _ xs (λ z k. (λ q. k.0 (sym q), λ q. k.1 (sym q)))
            (All-and (λ x. x.disk ≢ disk) (λ x. x.address ≢ address) xs no_disk fresh));
      untracked = λ d all.
          let q = All-last (λ x. x.disk ≢ d) xs _ all in
          let other : d == disk ≡ false = ground (arith, q.1) in rw other (v.untracked d q.0);
      unheld = λ a all.
          let q = All-last (λ x. x.address ≢ a) xs _ all in ground (arith, v.unheld a q.0, q.1);
    }

find_and_get-none :
    (disk : ℕ) (r : Registry) → find disk r.container ≡ none → find_and_get disk r ≡ (none, r)
unfolding find_and_get
find_and_get-none disk r absent = rw (absent, get_ref-none disk r.container absent) refl

-- A whole call that nothing disturbs takes a reference to what the search finds.
create_found :
    (disk : ℕ) (allocated : Option ℕ) (has_entry : Bool) (r : Registry) (e : TrackerDisk)
    → find disk r.container ≡ some e
    → create_or_get disk allocated has_entry r
      ≡ (success, some e.address, record r { container = get_ref disk r.container })
unfolding create_or_get find_and_get
create_found disk allocated has_entry r e found = rw (found, create_or_get) refl

-- Where the search finds nothing and an address is allocated, it inserts.
create_absent :
    (disk address : ℕ) (r : Registry)
    → find disk r.container ≡ none
    → create_or_get disk (some address) true r ≡ (success, some address, insert_disk disk address r)
unfolding create_or_get
create_absent disk address r absent =
    let e = find_and_get-none disk r absent in rw (e, create_or_get) (rw e refl)

pub search_step-IsValid :
    (native : ℕ → ℕ) (s : System) (disk : ℕ)
    → IsValid native s
    → IsValid native (search_step disk s)
unfolding search_step find_and_get
search_step-IsValid native s disk v = elim (Option-cases (find disk s.registry.container)) [
  | inr (e, found) ↦ rw (found, search_step) (found-IsValid native s disk e v found)
  | inl absent ↦
      rw (absent, search_step)
        (rw (get_ref-none disk s.registry.container absent) (record {
          entries = v.entries;
          distinct = v.distinct;
          untracked = v.untracked;
          unheld = v.unheld;
        }))
]
