-- ===== src/TrackerQueue/Puts.antt =====
-- The container of the tracker disks under a put, of the last reference or of one of several.
use mathlib.Core.Path.{subst}
use veeamsnap.Prelude.{
  some_inj, ℕ, ◌-◌, ◌≡◌, ◌≢◌, refl, sym, ap, ◌∙◌, true, false, some, List, [], ◌∷◌, ◌==◌,
  if◌then◌else◌, All, Bool-cases, inl, inr, arith,
}
use veeamsnap.TrackerQueue.{Fops, TrackerDisk, at_address, put_ref, restore}
use veeamsnap.TrackerQueue.Laws.{holds, Entry, Apart, Distinct, All-map, All-and, at_address-All}

-- One reference less.
abbrev pub drop_one : ℕ → List ℕ → List ℕ
drop_one address [] = []
drop_one address (a ∷ held) = if a == address then held else a ∷ drop_one address held

pub holds-drop_one :
    (address a : ℕ) (held : List ℕ)
    → holds a (drop_one address held) ≡ holds a held - (if address == a then 1 else 0)
holds-drop_one address a [] = omega arith
holds-drop_one address a (b ∷ held) = ground (arith, holds-drop_one address a held)

pub restore_other :
    (e : TrackerDisk) (fops : ℕ → Fops) (d : ℕ) → d ≢ e.disk → restore (some e) fops d ≡ fops d
unfolding restore
restore_other e fops d ne =
    let other : d == e.disk ≡ false = ground arith in
    elim (Bool-cases (e.kref == 1)) [ inl y ↦ rw (y, other) refl | inr n ↦ rw n refl ]

pub restore_more :
    (e : TrackerDisk) (fops : ℕ → Fops) (d : ℕ)
    → e.kref == 1 ≡ false
    → restore (some e) fops d ≡ fops d
unfolding restore
restore_more e fops d n = rw n refl

-- The entries after a put.
pub put_ref-Entry :
    (native : ℕ → ℕ) (fops : ℕ → Fops) (held : List ℕ) (address : ℕ) (xs : List TrackerDisk)
    (e : TrackerDisk)
    → at_address address xs ≡ some e
    → All (Entry native fops held) xs
    → Distinct xs
    → All (Entry native (restore (some e) fops) (drop_one address held)) (put_ref address xs)
unfolding at_address put_ref
put_ref-Entry native fops held address [] e h all d = absurd (cc h)
put_ref-Entry native fops held address (x ∷ xs) e h all d =
    elim (Bool-cases (x.address == address)) [
      | inl y ↦
          let same : x ≡ e = some_inj (sym (rw y refl) ∙ h) in
          let disk_is : x.disk ≡ e.disk = ap (λ (q : TrackerDisk). q.disk) same in
          let kref_is : x.kref ≡ e.kref = ap (λ (q : TrackerDisk). q.kref) same in
          let others : All (Entry native (restore (some e) fops) (drop_one address held)) xs =
            All-map _ _ xs
              (λ z k. (
                k.0.0,
                restore_other e fops z.disk (λ q. k.1.0 (q ∙ sym disk_is)) ∙ k.0.1,
                ground (arith, k.0.2, k.1.1, holds-drop_one address z.address held),
                k.0.3,
              ))
              (All-and (Entry native fops held) (Apart x) xs all.1 d.0) in
          elim (Bool-cases (x.kref == 1)) [
            | inl last ↦ rw (y, last) others
            | inr more ↦
                rw (y, more)
                  (
                    (
                      all.0.0,
                      restore_more e fops x.disk (sym (ap (λ (k : ℕ). k == 1) kref_is) ∙ more)
                          ∙ all.0.1,
                      ground (arith, all.0.2, holds-drop_one address x.address held),
                      ground arith,
                    ),
                    others,
                  )
          ]
      | inr n ↦
          let h' : at_address address xs ≡ some e = sym (rw n refl) ∙ h in
          let other = at_address-All (Apart x) address xs e h' d.0 in
          rw n (
            (
              all.0.0,
              restore_other e fops x.disk (λ q. other.0.0 (sym q)) ∙ all.0.1,
              ground (arith, all.0.2, other.1, holds-drop_one address x.address held),
              all.0.3,
            ),
            put_ref-Entry native fops held address xs e h' all.1 d.1,
          )
    ]

pub put_ref-All :
    (P : ℕ → ℕ → Type 0) (address : ℕ) (xs : List TrackerDisk)
    → All (λ x. P x.disk x.address) xs
    → All (λ x. P x.disk x.address) (put_ref address xs)
unfolding put_ref
put_ref-All P address [] h = tt
put_ref-All P address (x ∷ xs) h = elim (Bool-cases (x.address == address)) [
  | inl y ↦ elim (Bool-cases (x.kref == 1)) [
    | inl last ↦ rw (y, last) h.1
    | inr more ↦ rw (y, more) (h.0, h.1)
  ]
  | inr n ↦ rw n (h.0, put_ref-All P address xs h.1)
]

pub put_ref-Distinct :
    (address : ℕ) (xs : List TrackerDisk) → Distinct xs → Distinct (put_ref address xs)
unfolding put_ref
put_ref-Distinct address [] d = tt
put_ref-Distinct address (x ∷ xs) d = elim (Bool-cases (x.address == address)) [
  | inl y ↦ elim (Bool-cases (x.kref == 1)) [
    | inl last ↦ rw (y, last) d.1
    | inr more ↦ rw (y, more) (d.0, d.1)
  ]
  | inr n ↦ rw n (
    put_ref-All (λ (i a : ℕ). (i ≢ x.disk) × (a ≢ x.address)) address xs d.0,
    put_ref-Distinct address xs d.1,
  )
]

-- What holds of the entries after a put holds of those before, but for one that the put took out.
pub put_ref-All_back :
    (P : ℕ → ℕ → Type 0) (address : ℕ) (xs : List TrackerDisk) (e : TrackerDisk)
    → at_address address xs ≡ some e
    → (e.kref == 1 ≡ true → P e.disk e.address)
    → All (λ x. P x.disk x.address) (put_ref address xs)
    → All (λ x. P x.disk x.address) xs
unfolding put_ref at_address
put_ref-All_back P address [] e h one all = tt
put_ref-All_back P address (x ∷ xs) e h one all = elim (Bool-cases (x.address == address)) [
  | inl y ↦
      let same : x ≡ e = some_inj (sym (rw y refl) ∙ h) in
      elim (Bool-cases (x.kref == 1)) [
        | inl last ↦ (
          subst (λ (q : TrackerDisk). P q.disk q.address) (sym same)
              (one (ap (λ (q : TrackerDisk). q.kref == 1) (sym same) ∙ last)),
          rw (y, last) at all,
        )
        | inr more ↦ (let q = rw (y, more) at all in (q.0, q.1))
      ]
  | inr n ↦
      (let q = rw n at all in (q.0, put_ref-All_back P address xs e (sym (rw n refl) ∙ h) one q.1))
]
