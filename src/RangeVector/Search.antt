-- ===== src/RangeVector/Search.antt =====
-- `rangevector_el_find_first_hit`: the bisection over the ranges of an element, and its first range.
use veeamsnap.Prelude.{
  ℕ, zero, suc, ◌+◌, ◌-◌, ◌/◌, ◌<◌, ◌≤◌, ◌≡◌, ◌≢◌, refl, ap, ◌∙◌, inl, inr, Bool, true, false,
  Option, none, some, List, [], ◌∷◌, ltb, leb, ◌==◌, ◌&&◌, if◌then◌else◌, Bool-cases, length,
  get_or, get_elem?-eq-get_or, arith,
}
use veeamsnap.Prelude.Word.{word, add64_exact}
use veeamsnap.Range.{Range, range_empty}
use veeamsnap.RangeVector.{
  Found, found, missing, find_loop, outside, walk_back, check_previous, find_first_hit,
}

-- The ranges ascend and do not overlap, and do not wrap.
abbrev pub Ordered : List Range → Type 0
Ordered [] = Unit
Ordered (rg ∷ []) = rg.ofs + rg.cnt < word
Ordered (rg ∷ rg' ∷ rgs) =
    (rg.ofs + rg.cnt < word) × (rg.ofs + rg.cnt ≤ rg'.ofs) × Ordered (rg' ∷ rgs)

module _ (el : List Range) where
  abbrev pub nth : ℕ → Range
  nth k = get_or el k range_empty

  abbrev pub finish : ℕ → ℕ
  finish k = (nth k).ofs + (nth k).cnt

-- Range k has a sector in [from, to).
abbrev pub is_hit : List Range → ℕ → ℕ → ℕ → Bool
is_hit el from to k = ltb from (finish el k) && ltb (nth el k).ofs to

Ordered-tail : (rg : Range) (rgs : List Range) → Ordered (rg ∷ rgs) → Ordered rgs
Ordered-tail rg [] o = tt
Ordered-tail rg (rg' ∷ rgs) o = o.2

Ordered-nth : (el : List Range) (k : ℕ) → Ordered el → k < length el → finish el k < word
Ordered-nth [] k o h = absurd (omega arith)
Ordered-nth (rg ∷ []) zero o h = o
Ordered-nth (rg ∷ rg' ∷ rgs) zero o h = o.0
Ordered-nth (rg ∷ rgs) (suc k) o h = Ordered-nth rgs k (Ordered-tail rg rgs o) (omega arith)

Ordered-head :
    (rg : Range) (rgs : List Range) (k : ℕ)
    → Ordered (rg ∷ rgs)
    → k < length rgs
    → rg.ofs + rg.cnt ≤ (nth rgs k).ofs
Ordered-head rg [] k o h = absurd (omega arith)
Ordered-head rg (rg' ∷ rgs) zero o h = o.1
Ordered-head rg (rg' ∷ rgs) (suc k) o h =
    omega (arith, o.1, Ordered-head rg' rgs k o.2 (omega arith))

-- A range earlier in the element ends before a later one begins.
Ordered-lt :
    (el : List Range) (i j : ℕ) → Ordered el → i < j → j < length el → finish el i ≤ (nth el j).ofs
Ordered-lt [] i j o h k = absurd (omega arith)
Ordered-lt (rg ∷ rgs) zero zero o h k = absurd (omega arith)
Ordered-lt (rg ∷ rgs) zero (suc j) o h k = Ordered-head rg rgs j o (omega arith)
Ordered-lt (rg ∷ rgs) (suc i) zero o h k = absurd (omega arith)
Ordered-lt (rg ∷ rgs) (suc i) (suc j) o h k =
    Ordered-lt rgs i j (Ordered-tail rg rgs o) (omega arith) (omega arith)

find_loop_nonempty :
    (el : List Range) (from to rounds index limit_min limit_max i : ℕ)
    → find_loop (suc rounds) el from to index limit_min limit_max ≡ some (found i)
    → 0 < length el
unfolding find_loop
find_loop_nonempty [] from to rounds index limit_min limit_max i e = cc
find_loop_nonempty (rg ∷ rgs) from to rounds index limit_min limit_max i e = omega arith

module _ (el : List Range) (from to : ℕ) (o : Ordered el) where
  -- One round of the loop, in terms of the range at `index`.
  find_loop-step :
      (rounds index limit_min limit_max : ℕ)
      → index < length el
      → find_loop (suc rounds) el from to index limit_min limit_max ≡ (
          if leb (finish el index) from
          then (if (limit_max - index) / 2 == 0
              then some missing
              else find_loop rounds el from to (index + (limit_max - index) / 2) index limit_max)
          else if leb to (nth el index).ofs
          then (if (index - limit_min) / 2 == 0
              then some missing
              else find_loop rounds el from to (index - (index - limit_min) / 2) limit_min index)
          else some (found index))
  unfolding find_loop
  find_loop-step rounds index limit_min limit_max h = rw (
    get_elem?-eq-get_or el index range_empty h,
    find_loop,
    add64_exact (nth el index).ofs (nth el index).cnt (Ordered-nth el index o h),
  )

  -- Where range k is hit and not the first, the loop ends at a range that is hit.
  find_loop-hit :
      (rounds k index limit_min limit_max : ℕ)
      → is_hit el from to k ≡ true
      → limit_min < k
      → k < limit_max
      → limit_min < index
      → index < limit_max
      → limit_max ≤ length el
      → limit_max ≤ limit_min + rounds
      → (j : ℕ) × (find_loop rounds el from to index limit_min limit_max ≡ some (found j))
        × (is_hit el from to j ≡ true)
        × (j < length el)
  find_loop-hit zero k index limit_min limit_max hk a b c d e f = absurd (omega arith)
  find_loop-hit (suc rounds) k index limit_min limit_max hk a b c d e f =
      rw (find_loop-step rounds index limit_min limit_max (omega arith))
        (elim (Bool-cases (leb (finish el index) from)) [
          | inl low ↦
              let above : index < k = ground (arith, Ordered-lt el k index o) in
              let inc : (limit_max - index) / 2 ≢ 0 = omega arith in
              let ih =
                find_loop-hit rounds k (index + (limit_max - index) / 2) index limit_max hk above b
                  (omega arith) (omega arith) e (omega arith) in
              (ih.0, rw low (ground (arith, inc, ih.1)), ih.2, ih.3)
          | inr not_low ↦ elim (Bool-cases (leb to (nth el index).ofs)) [
            | inl high ↦
                let below : k < index = ground (arith, Ordered-lt el index k o) in
                let dec : (index - limit_min) / 2 ≢ 0 = omega arith in
                let ih =
                  find_loop-hit rounds k (index - (index - limit_min) / 2) limit_min index hk a
                    below (omega arith) (omega arith) (omega arith) (omega arith) in
                (ih.0, rw (not_low, high) (ground (arith, dec, ih.1)), ih.2, ih.3)
            | inr not_high ↦ (index, rw (not_low, not_high), ground arith, omega arith)
          ]
        ])

  -- Where every range but the first begins at `to` or after it, the loop never reads the first.
  find_loop_miss :
      (rounds index limit_max : ℕ)
      → from < to
      → ((k : ℕ) → 0 < k → k < length el → to ≤ (nth el k).ofs)
      → 0 < index
      → index < length el
      → index ≤ rounds
      → find_loop rounds el from to index 0 limit_max ≡ some missing
  find_loop_miss zero index limit_max lt high a b c = absurd (omega arith)
  find_loop_miss (suc rounds) index limit_max lt high a b c =
      find_loop-step rounds index 0 limit_max b
      ∙ ground
          (arith, lt, high index a b, find_loop_miss rounds (index - (index - 0) / 2) index lt high)

  walk_back-step :
      (k : ℕ)
      → k < length el
      → walk_back el from to (suc k)
        ≡ (if is_hit el from to k then walk_back el from to k else suc k)
  unfolding walk_back
  walk_back-step k h =
      rw
        (
          get_elem?-eq-get_or el k range_empty h,
          walk_back,
          add64_exact (nth el k).ofs (nth el k).cnt (Ordered-nth el k o h),
        )
        (ground arith)

  walk_back-zero : walk_back el from to 0 ≡ 0
  unfolding walk_back
  walk_back-zero = refl

  -- The walk back ends at a range that is hit, with none before it that is.
  walk_back-first :
      (j : ℕ)
      → j < length el
      → is_hit el from to j ≡ true
      → (is_hit el from to (walk_back el from to j) ≡ true) × (walk_back el from to j ≤ j)
  walk_back-first zero h hit = rw walk_back-zero (hit, omega arith)
  walk_back-first (suc j) h hit =
      rw (walk_back-step j (omega arith)) (elim (Bool-cases (is_hit el from to j)) [
        | inl e ↦ rw e (let ih = walk_back-first j (omega arith) e in (ih.0, omega (arith, ih.1)))
        | inr e ↦ rw e (hit, omega arith)
      ])

  walk_back-none :
      (j k : ℕ)
      → j < length el
      → is_hit el from to j ≡ true
      → k < walk_back el from to j
      → is_hit el from to k ≡ false
  walk_back-none zero k h hit lt = absurd (omega (arith, walk_back-zero))
  walk_back-none (suc j) k h hit lt = elim (Bool-cases (is_hit el from to j)) [
    | inl e ↦ walk_back-none j k (omega arith) e (ground (arith, walk_back-step j (omega arith)))
    | inr e ↦
        let le : k < suc j = ground (arith, walk_back-step j (omega arith)) in
        ground (arith, Ordered-lt el k j o, Ordered-lt el j (suc j) o (omega arith) h)
  ]

  -- Where the loop ends at a range, the range is hit.
  find_loop_sound :
      (rounds index limit_min limit_max i : ℕ)
      → limit_min ≤ index
      → index < limit_max
      → limit_max ≤ length el
      → find_loop rounds el from to index limit_min limit_max ≡ some (found i)
      → (is_hit el from to i ≡ true) × (i < length el)
  unfolding find_loop
  find_loop_sound zero index limit_min limit_max i a b c e = cc
  find_loop_sound (suc rounds) index limit_min limit_max i a b c e = ground (
    arith,
    find_loop-step rounds index limit_min limit_max,
    find_loop_sound rounds (index + (limit_max - index) / 2) index limit_max i,
    find_loop_sound rounds (index - (index - limit_min) / 2) limit_min index i,
  )

  check_previous_inv :
      (f : Option Found) (j : ℕ)
      → check_previous el from to f ≡ some (found j)
      → (i : ℕ) × (f ≡ some (found i)) × (walk_back el from to i ≡ j)
  unfolding check_previous
  check_previous_inv none j e = cc
  check_previous_inv (some (found i)) j e = (i, refl, ground arith)
  check_previous_inv (some missing) j e = cc
  check_previous_inv (some outside) j e = cc

  -- What the search finds is the first range of the element that is hit.
  find_first_hit-first :
      (j k : ℕ) → find_first_hit el from to ≡ some (found j) → k < j → is_hit el from to k ≡ false
  unfolding find_first_hit check_previous
  find_first_hit-first j k e lt =
      let (i, ei, w) = check_previous_inv _ j e in
      let some_range : 0 < length el =
        find_loop_nonempty el from to (length el) (length el / 2) 0 (length el) i ei in
      let s =
        find_loop_sound (suc (length el)) (length el / 2) 0 (length el) i (omega arith)
          (omega arith) (omega arith) ei in
      walk_back-none i k s.1 s.0 (rw w lt)

  -- Where the ranges of an element ascend, do not overlap and do not wrap, the search finds a range where
  -- one that is not the first of the element is hit. What it finds is hit, and stands no later than that
  -- one.
  pub find_first_hit-found :
      (k : ℕ)
      → 0 < k
      → k < length el
      → is_hit el from to k ≡ true
      → (j : ℕ) × (find_first_hit el from to ≡ some (found j))
        × (is_hit el from to j ≡ true)
        × (j ≤ k)
  unfolding find_first_hit check_previous
  find_first_hit-found k a b hk =
      let ih =
        find_loop-hit (suc (length el)) k (length el / 2) 0 (length el) hk a b (omega arith)
          (omega arith) (omega arith) (omega arith) in
      let j : ℕ = walk_back el from to ih.0 in
      let e : find_first_hit el from to ≡ some (found j) = ap (check_previous el from to) ih.1 in
      (
        j,
        e,
        (walk_back-first ih.0 ih.3 ih.2).0,
        elim (Bool-cases (ltb k j)) [
          | inr no_later ↦ ground arith
          | inl later ↦ absurd (ground (arith, find_first_hit-first j k e, hk, later))
        ],
      )

  -- A hit of the first range alone is missed, unless it is the only range of its element.
  pub find_first_hit_misses :
      from < to → 1 < length el → to ≤ (nth el 1).ofs → find_first_hit el from to ≡ some missing
  unfolding find_first_hit check_previous
  find_first_hit_misses lt two high = ap (check_previous el from to) (
      find_loop_miss (suc (length el)) (length el / 2) (length el) lt later (omega arith)
        (omega arith) (omega arith))
    where
      later : (k : ℕ) → 0 < k → k < length el → to ≤ (nth el k).ofs
      later zero a b = absurd (omega arith)
      later (suc zero) a b = high
      later (suc (suc k)) a b = omega (arith, Ordered-lt el 1 (suc (suc k)) o)
