-- ===== src/TrackerQueue/Put.antt =====
-- `tracker_disk_put` keeps the registry and its references in order.
use veeamsnap.Prelude.{
  ℕ, ◌<◌, ◌≡◌, ◌≢◌, sym, ap, ◌∙◌, true, some, List, ◌==◌, ==_iff, Bool-cases, Option-cases, inl,
  inr, arith,
}
use veeamsnap.TrackerQueue.{Fops, driver, TrackerDisk, at_address, restore, put}
use veeamsnap.TrackerQueue.Laws.{holds, Entry, at_address-All, at_address-none}
use veeamsnap.TrackerQueue.Puts.{
  drop_one, holds-drop_one, restore_other, put_ref-Entry, put_ref-Distinct, put_ref-All_back,
}
use veeamsnap.TrackerQueue.System.{System, put_step, IsValid}

-- A reference that is held is to an entry.
held_at :
    (native : ℕ → ℕ) (s : System) (address : ℕ)
    → IsValid native s
    → 0 < holds address s.held
    → (e : TrackerDisk) × (at_address address s.registry.container ≡ some e)
held_at native s address v h = elim (Option-cases (at_address address s.registry.container)) [
  | inr (e, found) ↦ (e, found)
  | inl absent ↦
      absurd (omega (arith, v.unheld address (at_address-none address s.registry.container absent)))
]

restore_last :
    (native : ℕ → ℕ) (e : TrackerDisk) (fops : ℕ → Fops) (d : ℕ)
    → d ≡ e.disk
    → e.kref == 1 ≡ true
    → e.original_fops ≡ driver (native e.disk)
    → restore (some e) fops d ≡ driver (native d)
unfolding restore
restore_last native e fops d same last saved =
    let here : d == e.disk ≡ true = (==_iff d e.disk).1 same in
    rw (last, here) (saved ∙ ap (λ (i : ℕ). driver (native i)) (sym same))

pub put_step-IsValid :
    (native : ℕ → ℕ) (s : System) (address : ℕ)
    → IsValid native s
    → 0 < holds address s.held
    → IsValid native (put_step address s)
unfolding put_step put
put_step-IsValid native s address v h =
    let xs : List TrackerDisk = s.registry.container in
    let (e, at) = held_at native s address v h in
    let is_e = at_address-All (Entry native s.registry.fops s.held) address xs e at v.entries in
    let held' : List ℕ = drop_one address s.held in
    rw (at) (record {
      entries = put_ref-Entry native s.registry.fops s.held address xs e at v.entries v.distinct;
      distinct = put_ref-Distinct address xs v.distinct;
      untracked = λ d all.
          let back = λ (one : e.kref == 1 ≡ true → e.disk ≢ d).
            put_ref-All_back (λ (i b : ℕ). i ≢ d) address xs e at one all in
          elim (Bool-cases (d == e.disk)) [
            | inl y ↦ elim (Bool-cases (e.kref == 1)) [
              | inl last ↦
                  restore_last native e s.registry.fops d ((==_iff d e.disk).0 y) last is_e.0.0
              | inr more ↦ absurd (
                  (at_address-All (λ x. x.disk ≢ d) address xs e at
                      (back (λ last. absurd (ground (arith, last, more))))).0
                    (sym ((==_iff d e.disk).0 y)))
            ]
            | inr n ↦
                restore_other e s.registry.fops d (λ q. ground arith)
                ∙ v.untracked d (back (λ last q. ground arith))
          ];
      unheld = λ a all.
          let back = λ (one : e.kref == 1 ≡ true → e.address ≢ a).
            put_ref-All_back (λ (i b : ℕ). b ≢ a) address xs e at one all in
          elim (Bool-cases (address == a)) [
            | inl y ↦ elim (Bool-cases (e.kref == 1)) [
              | inl last ↦ ground (arith, holds-drop_one address a s.held, is_e.0.2, is_e.1)
              | inr more ↦ absurd (
                  (at_address-All (λ x. x.address ≢ a) address xs e at
                      (back (λ last. absurd (ground (arith, last, more))))).0
                    (is_e.1 ∙ (==_iff address a).0 y))
            ]
            | inr n ↦ ground (
              arith,
              holds-drop_one address a s.held,
              v.unheld a (back (λ last q. ground (arith, is_e.1))),
            )
          ];
    })
