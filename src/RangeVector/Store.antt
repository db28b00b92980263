-- ===== src/RangeVector/Store.antt =====
-- What rangevector.c keeps: the ranges that were added, in their order, in elements that are filled
-- one after the other.
use mathlib.Core.List.{append_assoc, append-nil}
use veeamsnap.Prelude.{
  ℕ, suc, ◌+◌, ◌-◌, ◌%◌, ◌^◌, ◌<◌, ◌≤◌, ◌≡◌, refl, sym, ap, ◌∙◌, inl, inr, true, false, none, some,
  List, [], ◌∷◌, ◌++◌, ltb, if◌then◌else◌, Bool-cases, length, get_elem?, length-append, success,
  enodata, is_success, Memory, arith,
}
use veeamsnap.Prelude.Word.{add64, word}
use veeamsnap.Range.{Range, total, get_elem?-append_left, get_elem?-append_right}
use veeamsnap.RangeVector.{
  RangeVector, slots, init, cleanup_loop, cleanup, el_capacity, has_room, push_last, add, at_els,
  at_index, length_el, length_els, length_sectors, cnt_els, cnt,
}

-- Every element holds a range, and every element but the last is full.
abbrev pub Filled : List (List Range) → Type 0
Filled [] = Unit
Filled (el ∷ []) = (0 < length el) × (length el ≤ el_capacity)
Filled (el ∷ el' ∷ els) = (length el ≡ el_capacity) × Filled (el' ∷ els)

pub record IsValid (v : RangeVector) : Type 0 where
  pub filled : Filled v.els
  pub counted : v.blocks_cnt ≡ length v.els

slots-append : (xs ys : List (List Range)) → slots (xs ++ ys) ≡ slots xs ++ slots ys
slots-append [] ys = refl
slots-append (x ∷ xs) ys =
    ap (◌++◌ x) (slots-append xs ys) ∙ sym (append_assoc x (slots xs) (slots ys))

push_last-slots :
    (els : List (List Range)) (rg : Range)
    → has_room els ≡ true
    → slots (push_last els rg) ≡ slots els ++ (rg ∷ [])
unfolding has_room push_last
push_last-slots [] rg h = cc
push_last-slots (el ∷ []) rg h = simp (append-nil, append_assoc)
push_last-slots (el ∷ el' ∷ els) rg h =
    ap (◌++◌ el) (push_last-slots (el' ∷ els) rg h)
    ∙ sym (append_assoc el (slots (el' ∷ els)) (rg ∷ []))

Filled-cons :
    (el : List Range) (els : List (List Range))
    → 0 < length els
    → length el ≡ el_capacity
    → Filled els
    → Filled (el ∷ els)
Filled-cons el [] h e f = absurd (omega arith)
Filled-cons el (el' ∷ els) h e f = (e, f)

push_last-Filled :
    (els : List (List Range)) (rg : Range)
    → has_room els ≡ true
    → Filled els
    → Filled (push_last els rg) × (length (push_last els rg) ≡ length els)
unfolding has_room push_last
push_last-Filled [] rg h f = (tt, refl)
push_last-Filled (el ∷ []) rg h f = ground (arith, length-append el (rg ∷ []))
push_last-Filled (el ∷ el' ∷ els) rg h f =
    let ih = push_last-Filled (el' ∷ els) rg h f.1 in
    (Filled-cons el (push_last (el' ∷ els) rg) (omega (arith, ih.1)) f.0 ih.0, ap suc ih.1)

push_new-Filled :
    (els : List (List Range)) (rg : Range)
    → has_room els ≡ false
    → Filled els
    → Filled (els ++ ((rg ∷ []) ∷ []))
unfolding has_room
push_new-Filled [] rg h f = omega arith
push_new-Filled (el ∷ []) rg h f = ground arith
push_new-Filled (el ∷ el' ∷ els) rg h f = (f.0, push_new-Filled (el' ∷ els) rg h f.1)

-- Adding a range keeps the vector valid, and puts the range behind the others, or changes nothing
-- when it fails for want of memory.
pub add_lem :
    (v : RangeVector) (rg : Range) (mem : Memory)
    → IsValid v
    → let r = add v rg mem in
      IsValid r.1
      × (slots r.1.els ≡ (if is_success r.0 then slots v.els ++ (rg ∷ []) else slots v.els))
unfolding add
add_lem v rg mem valid = ground (
  arith,
  valid,
  push_last-slots v.els rg,
  push_last-Filled v.els rg,
  push_new-Filled v.els rg,
  slots-append v.els ((rg ∷ []) ∷ []),
  length-append v.els ((rg ∷ []) ∷ []),
)

pub init-IsValid : IsValid init × (slots init.els ≡ [])
unfolding init
init-IsValid = (record { filled = tt; counted = refl }, refl)

cleanup_loop_lem : (els : List (List Range)) → cleanup_loop els (length els) ≡ 0
unfolding cleanup_loop
cleanup_loop_lem [] = refl
cleanup_loop_lem (el ∷ els) =
    let one_less : suc (length els) - 1 ≡ length els = omega arith in
    ap (cleanup_loop els) one_less ∙ cleanup_loop_lem els

-- Freeing a valid vector leaves it as it was made.
cleanup_lem : (v : RangeVector) → IsValid v → cleanup v ≡ init
unfolding cleanup init
cleanup_lem v valid =
    ap (λ (n : ℕ). record { els = []; blocks_cnt = n })
      (ap (cleanup_loop v.els) valid.counted ∙ cleanup_loop_lem v.els)

-- Where the allocator refuses nothing, a range is added.
pub add_granted :
    (v : RangeVector) (rg : Range) → ((add v rg []).0 ≡ success) × ((add v rg []).2 ≡ [])
unfolding add
add_granted v rg = ground arith

at_els_lem :
    (els : List (List Range)) (inx curr : ℕ)
    → curr ≤ inx
    → at_els inx curr els ≡ get_elem? (slots els) (inx - curr)
unfolding at_els
at_els_lem [] inx curr h = refl
at_els_lem (el ∷ els) inx curr h = elim (Bool-cases (ltb inx (curr + length el))) [
  | inl e ↦ ground (arith, get_elem?-append_left el (slots els) (inx - curr))
  | inr e ↦
      let step : inx - curr ≡ length el + (inx - (curr + length el)) = ground arith in
      rw (step, get_elem?-append_right) (ground (arith, at_els_lem els inx (curr + length el)))
]

-- Reading by index reads the list of the ranges that were added.
pub at_index-get_elem? :
    (v : RangeVector) (inx : ℕ)
    → at_index v inx ≡ (elim (get_elem? (slots v.els) inx) [
      | none ↦ (enodata, none)
      | some rg ↦ (success, some rg)
    ])
unfolding at_index
at_index-get_elem? v inx = ground (arith, at_els_lem v.els inx 0)

cnt_els_lem : (els : List (List Range)) (n : ℕ) → cnt_els els n ≡ n + length (slots els)
unfolding cnt_els
cnt_els_lem [] n = omega arith
cnt_els_lem (el ∷ els) n =
    omega (arith, cnt_els_lem els (n + length el), length-append el (slots els))

length_el_lem : (el : List Range) (n : ℕ) → n < word → length_el el n ≡ (n + total el) % 2 ^ 64
unfolding length_el
length_el_lem [] n h = omega arith
length_el_lem (rg ∷ rgs) n h = omega (arith, length_el_lem rgs (add64 n rg.cnt) (omega arith))

total-append : (xs ys : List Range) → total (xs ++ ys) ≡ total xs + total ys
total-append [] ys = omega arith
total-append (x ∷ xs) ys = omega (arith, total-append xs ys)

length_els_lem :
    (els : List (List Range)) (n : ℕ)
    → n < word
    → length_els els n ≡ (n + total (slots els)) % 2 ^ 64
unfolding length_els
length_els_lem [] n h = omega arith
length_els_lem (el ∷ els) n h = omega (
  arith,
  length_el_lem el n h,
  total-append el (slots els),
  length_els_lem els (length_el el n) (omega (arith, length_el_lem el n h)),
)

-- The two sizes: the number of ranges, and the sum of their sectors as a 64-bit word.
pub sizes_lem :
    (v : RangeVector)
    → (cnt v ≡ length (slots v.els)) × (length_sectors v ≡ total (slots v.els) % 2 ^ 64)
unfolding cnt length_sectors
sizes_lem v = omega (arith, cnt_els_lem v.els 0, length_els_lem v.els 0 (omega arith))
