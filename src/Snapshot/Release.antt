-- ===== src/Snapshot/Release.antt =====
-- source/tracker.c, tracker_release_snapshot: where no freeze fails, no device keeps its processor.
use mathlib.Core.Path.{subst}
use veeamsnap.Prelude.{
  ℕ, ◌≡◌, refl, sym, ap, ◌∙◌, true, false, none, some, List, [], ◌∷◌, All, ◌==◌, Bool-cases,
  Option-cases, inl, inr, Status, is_success, arith,
}
use veeamsnap.Snapshot.{Tracker, find, replace, release_one, release_loop}
use veeamsnap.Snapshot.Held.{processor_of, held, find-id, find-replace, held-replace}

release_one-dev_id : (t : Tracker) → (release_one t).dev_id ≡ t.dev_id
unfolding release_one
release_one-dev_id t = ground arith

release_one-clears : (t : Tracker) → (release_one t).has_defer_io ≡ false
unfolding release_one
release_one-clears t = ground arith

module _ (freeze : ℕ → Status) (d : ℕ) (ds : List ℕ) (ts : List Tracker) where
  release_none : find d ts ≡ none → release_loop freeze (d ∷ ds) ts ≡ release_loop freeze ds ts
  unfolding release_loop
  release_none e = rw (e, release_loop) refl

  release_next :
      (t : Tracker)
      → find d ts ≡ some t
      → is_success (freeze d) ≡ true
      → release_loop freeze (d ∷ ds) ts ≡ release_loop freeze ds (replace d (release_one t) ts)
  unfolding release_loop
  release_next t e y = rw (e, release_loop) (rw y refl)

release_one-held :
    (d j : ℕ) (ts : List Tracker) (t : Tracker)
    → find d ts ≡ some t
    → held j ts ≡ false
    → held j (replace d (release_one t) ts) ≡ false
release_one-held d j ts t e h =
    held-replace d j ts t (release_one t) e (release_one-dev_id t ∙ find-id d ts t e)
    ∙ elim (Bool-cases (j == d)) [ inl y ↦ rw y (release_one-clears t) | inr n ↦ rw n h ]

-- A device that is free stays so.
release_loop-keeps :
    (freeze : ℕ → Status) (ds : List ℕ) (ts : List Tracker) (j : ℕ)
    → ((d : ℕ) → is_success (freeze d) ≡ true)
    → held j ts ≡ false
    → held j (release_loop freeze ds ts).1 ≡ false
unfolding release_loop
release_loop-keeps freeze [] ts j f h = h
release_loop-keeps freeze (d ∷ ds) ts j f h = elim (Option-cases (find d ts)) [
  | inl e ↦
      ap (λ (q : Status × List Tracker). held j q.1) (release_none freeze d ds ts e)
      ∙ release_loop-keeps freeze ds ts j f h
  | inr (t, e) ↦
      ap (λ (q : Status × List Tracker). held j q.1) (release_next freeze d ds ts t e (f d))
      ∙ release_loop-keeps freeze ds (replace d (release_one t) ts) j f
          (release_one-held d j ts t e h)
]

pub release_loop_lem :
    (freeze : ℕ → Status) (ds : List ℕ) (ts : List Tracker)
    → ((d : ℕ) → is_success (freeze d) ≡ true)
    → All (λ d. held d (release_loop freeze ds ts).1 ≡ false) ds
release_loop_lem freeze [] ts f = tt
release_loop_lem freeze (d ∷ ds) ts f = elim (Option-cases (find d ts)) [
  | inl e ↦
      subst (λ (q : Status × List Tracker). All (λ i. held i q.1 ≡ false) (d ∷ ds))
        (sym (release_none freeze d ds ts e))
        (release_loop-keeps freeze ds ts d f (ap processor_of e), release_loop_lem freeze ds ts f)
  | inr (t, e) ↦
      let ts' = replace d (release_one t) ts in
      let free : held d ts' ≡ false =
        ap processor_of
          (find-replace d ts t (release_one t) e (release_one-dev_id t ∙ find-id d ts t e))
        ∙ release_one-clears t in
      subst (λ (q : Status × List Tracker). All (λ i. held i q.1 ≡ false) (d ∷ ds))
        (sym (release_next freeze d ds ts t e (f d)))
        (release_loop-keeps freeze ds ts' d f free, release_loop_lem freeze ds ts' f)
]
