-- ===== src/Snapshot/Capture.antt =====
-- source/tracker.c, tracker_capture_snapshot: the devices are captured together, or none is.
use mathlib.Core.Path.{subst}
use veeamsnap.Prelude.{
  ℕ, ◌≡◌, ◌⊎◌, refl, sym, ap, ◌∙◌, Bool, true, false, none, some, List, [], ◌∷◌, All, ◌==◌, ==_iff,
  Bool-cases, Option-cases, inl, inr, Status, success, is_success, enodata, arith,
}
use veeamsnap.Snapshot.{Tracker, find, replace, capture_one, capture_loop, corrupted_loop, capture}
use veeamsnap.Snapshot.Held.{processor_of, held, find-id, find-replace, held-replace}
use veeamsnap.Snapshot.Release.{release_loop_lem}

capture_one-dev_id : (made : Status) (t : Tracker) → (capture_one made t).1.dev_id ≡ t.dev_id
unfolding capture_one
capture_one-dev_id made t = ground arith

capture_one-success :
    (made : Status) (t : Tracker)
    → is_success (capture_one made t).0 ≡ true
    → (capture_one made t).1.has_defer_io ≡ true
unfolding capture_one
capture_one-success made t h = ground arith

capture_one-keeps :
    (made : Status) (t : Tracker)
    → t.has_defer_io ≡ true
    → (capture_one made t).1.has_defer_io ≡ true
unfolding capture_one
capture_one-keeps made t h = ground arith

capture_one-held :
    (made : Status) (d j : ℕ) (ts : List Tracker) (t : Tracker)
    → find d ts ≡ some t
    → held j ts ≡ true
    → held j (replace d (capture_one made t).1 ts) ≡ true
capture_one-held made d j ts t e h =
    held-replace d j ts t (capture_one made t).1 e (capture_one-dev_id made t ∙ find-id d ts t e)
    ∙ elim (Bool-cases (j == d)) [
      | inl y ↦
          let same : held j ts ≡ t.has_defer_io =
            ap (λ (i : ℕ). held i ts) ((==_iff j d).0 y) ∙ ap processor_of e in
          rw y (capture_one-keeps made t (sym same ∙ h))
      | inr n ↦ rw n h
    ]

-- The three ways on from a device
module _ (made : ℕ → Status) (d : ℕ) (ds : List ℕ) (ts : List Tracker) where
  capture_none : find d ts ≡ none → capture_loop made (d ∷ ds) ts ≡ (enodata, ts)
  unfolding capture_loop
  capture_none e = rw (e, capture_loop) refl

  capture_next :
      (t : Tracker)
      → find d ts ≡ some t
      → is_success (capture_one (made d) t).0 ≡ true
      → capture_loop made (d ∷ ds) ts
        ≡ capture_loop made ds (replace d (capture_one (made d) t).1 ts)
  unfolding capture_loop
  capture_next t e y = rw (e, capture_loop) (rw y refl)

  capture_stop :
      (t : Tracker)
      → find d ts ≡ some t
      → is_success (capture_one (made d) t).0 ≡ false
      → capture_loop made (d ∷ ds) ts
        ≡ ((capture_one (made d) t).0, replace d (capture_one (made d) t).1 ts)
  unfolding capture_loop
  capture_stop t e n = rw (e, capture_loop) (rw n refl)

-- A device that is captured stays so.
capture_loop-keeps :
    (made : ℕ → Status) (ds : List ℕ) (ts : List Tracker) (j : ℕ)
    → held j ts ≡ true
    → held j (capture_loop made ds ts).1 ≡ true
unfolding capture_loop
capture_loop-keeps made [] ts j h = h
capture_loop-keeps made (d ∷ ds) ts j h = elim (Option-cases (find d ts)) [
  | inl e ↦ ap (λ (r : Status × List Tracker). held j r.1) (capture_none made d ds ts e) ∙ h
  | inr (t, e) ↦
      let r = capture_one (made d) t in
      let kept : held j (replace d r.1 ts) ≡ true = capture_one-held (made d) d j ts t e h in
      elim (Bool-cases (is_success r.0)) [
        | inl y ↦
            ap (λ (q : Status × List Tracker). held j q.1) (capture_next made d ds ts t e y)
            ∙ capture_loop-keeps made ds (replace d r.1 ts) j kept
        | inr n ↦
            ap (λ (q : Status × List Tracker). held j q.1) (capture_stop made d ds ts t e n) ∙ kept
      ]
]

capture_loop-success :
    (made : ℕ → Status) (ds : List ℕ) (ts : List Tracker)
    → is_success (capture_loop made ds ts).0 ≡ true
    → All (λ d. held d (capture_loop made ds ts).1 ≡ true) ds
capture_loop-success made [] ts h = tt
capture_loop-success made (d ∷ ds) ts h = elim (Option-cases (find d ts)) [
  | inl e ↦ absurd (
      cc (
        sym (ap (λ (q : Status × List Tracker). is_success q.0) (capture_none made d ds ts e)) ∙ h))
  | inr (t, e) ↦
      let r = capture_one (made d) t in
      elim (Bool-cases (is_success r.0)) [
        | inl y ↦
            let here : held d (replace d r.1 ts) ≡ true =
              ap processor_of
                (find-replace d ts t r.1 e (capture_one-dev_id (made d) t ∙ find-id d ts t e))
              ∙ capture_one-success (made d) t y in
            let step = capture_next made d ds ts t e y in
            subst (λ (q : Status × List Tracker). All (λ i. held i q.1 ≡ true) (d ∷ ds)) (sym step)
              (
                capture_loop-keeps made ds (replace d r.1 ts) d here,
                capture_loop-success made ds (replace d r.1 ts)
                    (ap (λ (q : Status × List Tracker). is_success q.0) (sym step) ∙ h),
              )
        | inr n ↦ absurd (
            cc (
              sym n
              ∙ ap (λ (q : Status × List Tracker). is_success q.0)
                  (sym (capture_stop made d ds ts t e n))
              ∙ h))
      ]
]

-- `tracker_capture_snapshot`, where no freeze fails, ends in one of two ways: with success, and every
-- device it was given has a defer IO processor; or with an error, and none of them has.
pub capture_lem :
    (made : ℕ → Status) (is_corrupted : ℕ → Bool) (freeze : ℕ → Status) (ds : List ℕ)
    (ts : List Tracker)
    → ((d : ℕ) → is_success (freeze d) ≡ true)
    → let r = capture made is_corrupted freeze ds ts in
      ((r.0 ≡ success) × All (λ d. held d r.1 ≡ true) ds)
      ⊎ ((is_success r.0 ≡ false) × All (λ d. held d r.1 ≡ false) ds)
unfolding capture
capture_lem made is_corrupted freeze ds ts f =
    let r = capture_loop made ds ts in
    let back = release_loop_lem freeze ds r.1 f in
    elim (Bool-cases (is_success r.0)) [
      | inr n ↦ inr (rw (n, n) (n, back))
      | inl y ↦ elim (Bool-cases (is_success (corrupted_loop is_corrupted ds r.1 success))) [
        | inl z ↦ inl (rw (y, z) (refl, capture_loop-success made ds ts y))
        | inr n ↦ inr (rw (y, n) (n, back))
      ]
    ]
