-- ===== src/Snapshot/Overlap.antt =====
-- source/tracker.c, tracker_find_intersection: its tests against the sectors that two ranges share.
use veeamsnap.Prelude.{
  ℕ, ◌+◌, ◌<◌, ◌≤◌, ◌≡◌, ◌⊎◌, refl, sym, ◌∙◌, true, ◌&&◌, ltb, leb, ◌==◌, ==_iff, Option, none,
  some, List, [], ◌∷◌, All, Bool-cases, inl, inr, arith,
}
use veeamsnap.Snapshot.{Tracker, have_intersection, find_intersection}

have_intersection-shared :
    (b1 e1 b2 e2 : ℕ) → b1 < e1 → b2 < e2 → have_intersection b1 e1 b2 e2 ≡ (ltb b2 e1 && ltb b1 e2)
unfolding have_intersection
have_intersection-shared b1 e1 b2 e2 p q = ground arith

-- A sector of [b1, e1) of the disk, and of the tracker
abbrev pub Shares : ℕ → ℕ → ℕ → Tracker → Type 0
Shares disk b1 e1 t =
    (t.disk ≡ disk) × ((s : ℕ) × (b1 ≤ s) × (s < e1) × (t.start ≤ s) × (s < t.start + t.capacity))

shares_yes :
    (b1 e1 b2 e2 : ℕ)
    → b1 < e1
    → b2 < e2
    → have_intersection b1 e1 b2 e2 ≡ true
    → (s : ℕ) × (b1 ≤ s) × (s < e1) × (b2 ≤ s) × (s < e2)
shares_yes b1 e1 b2 e2 p q h =
    let e = sym (have_intersection-shared b1 e1 b2 e2 p q) ∙ h in
    elim (Bool-cases (leb b1 b2)) [
      | inl y ↦ (b2, ground arith, ground arith, ground arith, ground arith)
      | inr n ↦ (b1, ground arith, ground arith, ground arith, ground arith)
    ]

shares_no :
    (b1 e1 b2 e2 s : ℕ)
    → b1 < e1
    → b2 < e2
    → b1 ≤ s
    → s < e1
    → b2 ≤ s
    → s < e2
    → have_intersection b1 e1 b2 e2 ≡ true
shares_no b1 e1 b2 e2 s p q h1 h2 h3 h4 = have_intersection-shared b1 e1 b2 e2 p q ∙ ground arith

abbrev pub Among : Tracker → List Tracker → Type 0
Among t [] = ⊥
Among t (x ∷ xs) = (x ≡ t) ⊎ Among t xs

-- The first tracker that shares a sector, or none in the list that does
abbrev pub Answer : ℕ → ℕ → ℕ → List Tracker → Option Tracker → Type 0
Answer disk b1 e1 ts none = All (λ t. ¬ Shares disk b1 e1 t) ts
Answer disk b1 e1 ts (some t) = Among t ts × Shares disk b1 e1 t

one_more :
    (disk b1 e1 : ℕ) (x : Tracker) (xs : List Tracker) (o : Option Tracker)
    → ¬ Shares disk b1 e1 x
    → Answer disk b1 e1 xs o
    → Answer disk b1 e1 (x ∷ xs) o
one_more disk b1 e1 x xs none h k = (h, k)
one_more disk b1 e1 x xs (some t) h k = (inr k.0, k.1)

-- `tracker_find_intersection`, for a run of sectors that is not empty and trackers of devices that are not
-- empty: it finds a tracker of the list that has a sector of the run on the same disk, or, where it
-- finds none, no tracker of the list has one.
pub find_intersection_lem :
    (disk b1 e1 : ℕ) (ts : List Tracker)
    → b1 < e1
    → All (λ t. 0 < t.capacity) ts
    → Answer disk b1 e1 ts (find_intersection disk b1 e1 ts)
unfolding find_intersection
find_intersection_lem disk b1 e1 [] p h = tt
find_intersection_lem disk b1 e1 (x ∷ xs) p h =
    let rest = find_intersection_lem disk b1 e1 xs p h.1 in
    elim (Bool-cases (x.disk == disk)) [
      | inr n ↦
          rw n (one_more disk b1 e1 x xs (find_intersection disk b1 e1 xs) (λ k. ground arith) rest)
      | inl y ↦ elim (Bool-cases (have_intersection b1 e1 x.start (x.start + x.capacity))) [
        | inl hit ↦
            rw (y, hit)
              (
                inl refl,
                (
                  (==_iff x.disk disk).0 y,
                  shares_yes b1 e1 x.start (x.start + x.capacity) p (ground arith) hit,
                ),
              )
        | inr miss ↦
            rw (y, miss)
              (one_more disk b1 e1 x xs (find_intersection disk b1 e1 xs)
                (λ k. absurd (
                  cc (
                    sym miss
                    ∙ shares_no b1 e1 x.start (x.start + x.capacity) k.1.0 p (ground arith) k.1.1
                        k.1.2 k.1.3 k.1.4)))
                rest)
      ]
    ]
