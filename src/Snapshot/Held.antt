-- ===== src/Snapshot/Held.antt =====
-- source/tracker.c, tracker_find_by_dev_id: what a search finds after a tracker was changed in place.
use veeamsnap.Prelude.{
  some_inj, ℕ, ◌≡◌, refl, sym, ap, ◌∙◌, Bool, false, Option, none, some, List, [], ◌∷◌, ◌==◌,
  ==_iff, if◌then◌else◌, Bool-cases, inl, inr, arith,
}
use veeamsnap.Snapshot.{Tracker, find, replace}

-- Whether the tracker of a device has a defer IO processor.
abbrev pub processor_of : Option Tracker → Bool
processor_of none = false
processor_of (some t) = t.has_defer_io

abbrev pub held : ℕ → List Tracker → Bool
held d ts = processor_of (find d ts)

pub find-id : (d : ℕ) (ts : List Tracker) (t : Tracker) → find d ts ≡ some t → t.dev_id ≡ d
unfolding find
find-id d [] t h = absurd (cc h)
find-id d (x ∷ xs) t h = elim (Bool-cases (x.dev_id == d)) [
  | inl y ↦
      let same : x ≡ t = some_inj (sym (rw y refl) ∙ h) in
      ap (λ (q : Tracker). q.dev_id) (sym same) ∙ (==_iff x.dev_id d).0 y
  | inr n ↦ find-id d xs t (sym (rw n refl) ∙ h)
]

pub find-replace :
    (d : ℕ) (ts : List Tracker) (t t' : Tracker)
    → find d ts ≡ some t
    → t'.dev_id ≡ d
    → find d (replace d t' ts) ≡ some t'
unfolding find replace
find-replace d [] t t' h k = absurd (cc h)
find-replace d (x ∷ xs) t t' h k = elim (Bool-cases (x.dev_id == d)) [
  | inl y ↦ rw y (rw ((==_iff t'.dev_id d).1 k) refl)
  | inr n ↦ rw (n, n) (find-replace d xs t t' (sym (rw n refl) ∙ h) k)
]

pub find-replace_other :
    (d j : ℕ) (ts : List Tracker) (t' : Tracker)
    → t'.dev_id ≡ d
    → (j == d) ≡ false
    → find j (replace d t' ts) ≡ find j ts
unfolding find replace
find-replace_other d j [] t' k e = refl
find-replace_other d j (x ∷ xs) t' k e =
    let ih = find-replace_other d j xs t' k e in
    elim (Bool-cases (x.dev_id == d)) [
      | inl y ↦
          let f : (t'.dev_id == j) ≡ false = ground arith in
          let g : (x.dev_id == j) ≡ false = ground arith in rw y (rw (f, g) refl)
      | inr n ↦ elim (Bool-cases (x.dev_id == j)) [
        | inl y ↦ rw n (rw y refl)
        | inr m ↦ rw n (rw m ih)
      ]
    ]

pub held-replace :
    (d j : ℕ) (ts : List Tracker) (t t' : Tracker)
    → find d ts ≡ some t
    → t'.dev_id ≡ d
    → held j (replace d t' ts) ≡ (if j == d then t'.has_defer_io else held j ts)
held-replace d j ts t t' h k = elim (Bool-cases (j == d)) [
  | inl y ↦
      let same : j ≡ d = (==_iff j d).0 y in
      rw y (
        ap (λ (i : ℕ). held i (replace d t' ts)) same
        ∙ ap processor_of (find-replace d ts t t' h k))
  | inr n ↦ rw n (ap processor_of (find-replace_other d j ts t' k n))
]
