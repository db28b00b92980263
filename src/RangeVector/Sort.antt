-- ===== src/RangeVector/Sort.antt =====
-- `rangevector_sort`: the passes end, and leave the same ranges in ascending order.
use mathlib.Core.Path.{ap₂}
use mathlib.Core.List.{Perm, map}
use mathlib.Core.List.Perm
use veeamsnap.Prelude.{
  ℕ, zero, suc, ◌+◌, ◌*◌, ◌<◌, ◌≤◌, ◌≡◌, refl, ap, ◌∙◌, inl, inr, Bool, false, some, List, [], ◌∷◌,
  ◌++◌, ltb, if◌then◌else◌, Bool-cases, length, count, count-le, take, drop, arith, length-append,
  length-drop, length-take, take-append-drop,
}
use veeamsnap.Range.{Range}
use veeamsnap.RangeVector.{RangeVector, bubble, sort_pass, sort_loop, slots, into_els, sort}

abbrev pub Sorted : List Range → Type 0
Sorted [] = Unit
Sorted (rg ∷ []) = Unit
Sorted (rg ∷ rg' ∷ rgs) = (rg.ofs ≤ rg'.ofs) × Sorted (rg' ∷ rgs)

abbrev before : Range → Range → Bool
before p r = ltb r.ofs p.ofs

-- How many pairs stand in the wrong order.
inversions : List Range → ℕ
inversions [] = 0
inversions (rg ∷ rgs) = count (before rg) rgs + inversions rgs

bubble-perm : (prev : Range) (rgs : List Range) → Perm (bubble prev rgs).0 (prev ∷ rgs)
unfolding bubble
bubble-perm prev [] = Perm.refl (prev ∷ [])
bubble-perm prev (rg ∷ rgs) = elim (Bool-cases (ltb rg.ofs prev.ofs)) [
  | inl e ↦ rw e (Perm.trans (Perm.cons rg (bubble-perm prev rgs)) (Perm.swap prev rg rgs))
  | inr e ↦ rw e (Perm.cons prev (bubble-perm rg rgs))
]

bubble-count :
    (p : Range → Bool) (prev : Range) (rgs : List Range)
    → count p (bubble prev rgs).0 ≡ count p (prev ∷ rgs)
unfolding bubble
bubble-count p prev [] = refl
bubble-count p prev (rg ∷ rgs) = ground (arith, bubble-count p prev rgs, bubble-count p rg rgs)

-- A pass makes no new inversion, and fewer where it changes something.
bubble-inversions :
    (prev : Range) (rgs : List Range)
    → inversions (bubble prev rgs).0 + (if (bubble prev rgs).1 then 1 else 0)
      ≤ inversions (prev ∷ rgs)
unfolding bubble inversions
bubble-inversions prev [] = omega arith
bubble-inversions prev (rg ∷ rgs) = ground (
  arith,
  bubble-inversions prev rgs,
  bubble-inversions rg rgs,
  bubble-count (before rg) prev rgs,
  bubble-count (before prev) rg rgs,
)

bubble-cons :
    (prev : Range) (rgs : List Range)
    → (bubble prev rgs).1 ≡ false
    → (bubble prev rgs).0 ≡ prev ∷ rgs
unfolding bubble
bubble-cons prev [] h = refl
bubble-cons prev (rg ∷ rgs) h = ground (arith, bubble-cons rg rgs)

bubble-Sorted :
    (prev : Range) (rgs : List Range) → (bubble prev rgs).1 ≡ false → Sorted (prev ∷ rgs)
unfolding bubble
bubble-Sorted prev [] h = tt
bubble-Sorted prev (rg ∷ rgs) h = ground (arith, bubble-Sorted rg rgs)

pass-perm : (rgs : List Range) → Perm (sort_pass rgs).0 rgs
unfolding sort_pass
pass-perm [] = Perm.refl []
pass-perm (rg ∷ rgs) = bubble-perm rg rgs

bubble-length : (prev : Range) (rgs : List Range) → length (bubble prev rgs).0 ≡ suc (length rgs)
unfolding bubble
bubble-length prev [] = refl
bubble-length prev (rg ∷ rgs) = ground (arith, bubble-length prev rgs, bubble-length rg rgs)

pass-length : (rgs : List Range) → length (sort_pass rgs).0 ≡ length rgs
unfolding sort_pass
pass-length [] = refl
pass-length (rg ∷ rgs) = bubble-length rg rgs

pass-inversions :
    (rgs : List Range)
    → inversions (sort_pass rgs).0 + (if (sort_pass rgs).1 then 1 else 0) ≤ inversions rgs
unfolding sort_pass inversions
pass-inversions [] = omega arith
pass-inversions (rg ∷ rgs) = bubble-inversions rg rgs

pass-Sorted : (rgs : List Range) → (sort_pass rgs).1 ≡ false → Sorted (sort_pass rgs).0
unfolding sort_pass
pass-Sorted [] h = tt
pass-Sorted (rg ∷ rgs) h = rw (bubble-cons rg rgs h) (bubble-Sorted rg rgs h)

-- With more rounds than inversions the loop ends.
sort_loop-Sorted :
    (rounds : ℕ) (rgs : List Range)
    → inversions rgs < rounds
    → (out : List Range) × (sort_loop rounds rgs ≡ some out)
      × Sorted out
      × Perm out rgs
      × (length out ≡ length rgs)
unfolding sort_loop
sort_loop-Sorted zero rgs h = absurd (omega arith)
sort_loop-Sorted (suc rounds) rgs h = elim (Bool-cases (sort_pass rgs).1) [
  | inl more ↦
      let ih = sort_loop-Sorted rounds (sort_pass rgs).0 (ground (arith, pass-inversions rgs)) in
      (ih.0, rw more ih.1, ih.2, Perm.trans ih.3 (pass-perm rgs), ih.4 ∙ pass-length rgs)
  | inr done ↦ ((sort_pass rgs).0, rw done, pass-Sorted rgs done, pass-perm rgs, pass-length rgs)
]

inversions-le : (rgs : List Range) → inversions rgs ≤ length rgs * length rgs
unfolding inversions
inversions-le [] = omega arith
inversions-le (rg ∷ rgs) = omega (arith, inversions-le rgs, count-le (before rg) rgs)

slots-into_els :
    (els : List (List Range)) (rgs : List Range)
    → length rgs ≡ length (slots els)
    → slots (into_els els rgs) ≡ rgs
unfolding into_els
slots-into_els [] [] h = refl
slots-into_els [] (rg ∷ rgs) h = absurd (omega arith)
slots-into_els (el ∷ els) rgs h =
    ap (◌++◌ (take (length el) rgs)) (
      slots-into_els els (drop (length el) rgs)
        (omega (arith, length-drop (length el) rgs, length-append el (slots els))))
    ∙ take-append-drop (length el) rgs

sizes-into_els :
    (els : List (List Range)) (rgs : List Range)
    → length rgs ≡ length (slots els)
    → map length (into_els els rgs) ≡ map length els
unfolding into_els
sizes-into_els [] rgs h = refl
sizes-into_els (el ∷ els) rgs h =
    ap₂ ◌∷◌ (omega (arith, length-take (length el) rgs, length-append el (slots els))) (
      sizes-into_els els (drop (length el) rgs)
        (omega (arith, length-drop (length el) rgs, length-append el (slots els))))

-- The sort ends, with the same ranges in ascending order of their offsets, in elements of the same
-- sizes.
pub sort-Sorted :
    (v : RangeVector)
    → (v' : RangeVector) × (sort v ≡ some v')
      × Sorted (slots v'.els)
      × Perm (slots v'.els) (slots v.els)
      × (map length v'.els ≡ map length v.els)
unfolding sort
sort-Sorted v =
    let rgs = slots v.els in
    let s =
      sort_loop-Sorted (suc (length rgs * length rgs)) rgs (omega (arith, inversions-le rgs)) in
    let same = slots-into_els v.els s.0 s.4 in
    (
      record v { els = into_els v.els s.0 },
      rw (s.1, sort),
      rw same s.2,
      rw same s.3,
      sizes-into_els v.els s.0 s.4,
    )
