-- ===== src/TrackerQueue/Laws.antt =====
-- The container of the tracker disks under a search and an insertion: each entry counts the references
-- that are held to it.
use mathlib.Core.Path.{subst}
use veeamsnap.Prelude.{
  some_inj, ℕ, ◌+◌, ◌<◌, ◌≡◌, ◌≢◌, refl, sym, ap, ◌∙◌, none, some, List, [], ◌∷◌, ◌++◌, ◌==◌,
  ==_iff, if◌then◌else◌, All, count, Bool-cases, inl, inr, arith,
}
use veeamsnap.TrackerQueue.{Fops, driver, tracking, TrackerDisk, find, get_ref, at_address}

-- How often an address stands among the references that are held.
abbrev pub holds : ℕ → List ℕ → ℕ
holds address held = count (λ (a : ℕ). a == address) held

-- An entry: it saved the driver's table, its own table is in place, and it counts its references.
abbrev pub Entry : (ℕ → ℕ) → (ℕ → Fops) → List ℕ → TrackerDisk → Type 0
Entry native fops held x =
    (x.original_fops ≡ driver (native x.disk))
    × (fops x.disk ≡ tracking x.address)
    × (x.kref ≡ holds x.address held)
    × (0 < x.kref)

abbrev pub Apart : TrackerDisk → TrackerDisk → Type 0
Apart x y = (y.disk ≢ x.disk) × (y.address ≢ x.address)

-- No two entries have one disk, or one address.
abbrev pub Distinct : List TrackerDisk → Type 0
Distinct [] = Unit {0}
Distinct (x ∷ xs) = All (Apart x) xs × Distinct xs

pub All-map :
    (P Q : TrackerDisk → Type 0) (xs : List TrackerDisk)
    → ((x : TrackerDisk) → P x → Q x)
    → All P xs
    → All Q xs
All-map P Q [] f h = tt
All-map P Q (x ∷ xs) f h = (f x h.0, All-map P Q xs f h.1)

pub All-and :
    (P Q : TrackerDisk → Type 0) (xs : List TrackerDisk)
    → All P xs
    → All Q xs
    → All (λ x. P x × Q x) xs
All-and P Q [] h k = tt
All-and P Q (x ∷ xs) h k = ((h.0, k.0), All-and P Q xs h.1 k.1)

pub All-append :
    (P : TrackerDisk → Type 0) (xs ys : List TrackerDisk) → All P xs → All P ys → All P (xs ++ ys)
All-append P [] ys h k = k
All-append P (x ∷ xs) ys h k = (h.0, All-append P xs ys h.1 k)

pub find-All :
    (P : TrackerDisk → Type 0) (disk : ℕ) (xs : List TrackerDisk) (e : TrackerDisk)
    → find disk xs ≡ some e
    → All P xs
    → P e × (e.disk ≡ disk)
unfolding find
find-All P disk [] e h all = absurd (cc h)
find-All P disk (x ∷ xs) e h all = elim (Bool-cases (x.disk == disk)) [
  | inl y ↦
      let same : x ≡ e = some_inj (sym (rw y refl) ∙ h) in
      (subst P same all.0, ap (λ (q : TrackerDisk). q.disk) (sym same) ∙ (==_iff x.disk disk).0 y)
  | inr n ↦ find-All P disk xs e (sym (rw n refl) ∙ h) all.1
]

pub find-none :
    (disk : ℕ) (xs : List TrackerDisk) → find disk xs ≡ none → All (λ x. x.disk ≢ disk) xs
unfolding find
find-none disk [] h = tt
find-none disk (x ∷ xs) h = elim (Bool-cases (x.disk == disk)) [
  | inl y ↦ absurd (ground (arith, h, y))
  | inr n ↦ (λ e. ground arith, find-none disk xs (sym (rw n refl) ∙ h))
]

pub at_address-All :
    (P : TrackerDisk → Type 0) (address : ℕ) (xs : List TrackerDisk) (e : TrackerDisk)
    → at_address address xs ≡ some e
    → All P xs
    → P e × (e.address ≡ address)
unfolding at_address
at_address-All P address [] e h all = absurd (cc h)
at_address-All P address (x ∷ xs) e h all = elim (Bool-cases (x.address == address)) [
  | inl y ↦
      let same : x ≡ e = some_inj (sym (rw y refl) ∙ h) in
      (
        subst P same all.0,
        ap (λ (q : TrackerDisk). q.address) (sym same) ∙ (==_iff x.address address).0 y,
      )
  | inr n ↦ at_address-All P address xs e (sym (rw n refl) ∙ h) all.1
]

pub at_address-none :
    (address : ℕ) (xs : List TrackerDisk)
    → at_address address xs ≡ none
    → All (λ x. x.address ≢ address) xs
unfolding at_address
at_address-none address [] h = tt
at_address-none address (x ∷ xs) h = elim (Bool-cases (x.address == address)) [
  | inl y ↦ absurd (ground (arith, h, y))
  | inr n ↦ (λ e. ground arith, at_address-none address xs (sym (rw n refl) ∙ h))
]

-- A reference more to an address, or to another.
pub holds_more :
    (a b : ℕ) (held : List ℕ) → holds a (b ∷ held) ≡ (if b == a then 1 else 0) + holds a held
holds_more a b held = refl

-- The entries after a search that takes a reference.
pub get_ref-Entry :
    (native : ℕ → ℕ) (fops : ℕ → Fops) (held : List ℕ) (disk : ℕ) (xs : List TrackerDisk)
    (e : TrackerDisk)
    → find disk xs ≡ some e
    → All (Entry native fops held) xs
    → Distinct xs
    → All (Entry native fops (e.address ∷ held)) (get_ref disk xs)
unfolding find get_ref
get_ref-Entry native fops held disk [] e h all d = absurd (cc h)
get_ref-Entry native fops held disk (x ∷ xs) e h all d = elim (Bool-cases (x.disk == disk)) [
  | inl y ↦
      let same : x ≡ e = some_inj (sym (rw y refl) ∙ h) in
      let at : x.address ≡ e.address = ap (λ (q : TrackerDisk). q.address) same in
      rw y (
        (all.0.0, all.0.1, ground (arith, all.0.2), omega arith),
        All-map _ _ xs (λ z k. (k.0.0, k.0.1, ground (arith, k.0.2, k.1.1), k.0.3))
            (All-and (Entry native fops held) (Apart x) xs all.1 d.0),
      )
  | inr n ↦
      let h' : find disk xs ≡ some e = sym (rw n refl) ∙ h in
      let other = find-All (Apart x) disk xs e h' d.0 in
      rw n (
        (all.0.0, all.0.1, ground (arith, all.0.2, other.0.1), all.0.3),
        get_ref-Entry native fops held disk xs e h' all.1 d.1,
      )
]

-- The disks and addresses of the entries are the same after a search.
pub get_ref-All :
    (P : ℕ → ℕ → Type 0) (disk : ℕ) (xs : List TrackerDisk)
    → All (λ x. P x.disk x.address) xs
    → All (λ x. P x.disk x.address) (get_ref disk xs)
unfolding get_ref
get_ref-All P disk [] h = tt
get_ref-All P disk (x ∷ xs) h = elim (Bool-cases (x.disk == disk)) [
  | inl y ↦ rw y (h.0, h.1)
  | inr n ↦ rw n (h.0, get_ref-All P disk xs h.1)
]

pub get_ref-Distinct : (disk : ℕ) (xs : List TrackerDisk) → Distinct xs → Distinct (get_ref disk xs)
unfolding get_ref
get_ref-Distinct disk [] d = tt
get_ref-Distinct disk (x ∷ xs) d = elim (Bool-cases (x.disk == disk)) [
  | inl y ↦ rw y (d.0, d.1)
  | inr n ↦ rw n (
    get_ref-All (λ (i a : ℕ). (i ≢ x.disk) × (a ≢ x.address)) disk xs d.0,
    get_ref-Distinct disk xs d.1,
  )
]
