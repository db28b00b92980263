-- ===== src/RangeVector.antt =====
-- source/rangevector.c: a list of elements of up to 1000 ranges each. The semaphore is taken
-- around every function, so a function is one step.
pub mod Store
pub mod Translate
pub mod Search
pub mod Sort
mod Tests
use veeamsnap.Prelude.{
  ℕ, zero, suc, ◌+◌, ◌-◌, ◌*◌, ◌/◌, ◌≡◌, min, Bool, true, false, Option, none, some, List, [], ◌∷◌,
  ◌++◌, ltb, leb, ◌==◌, ◌&&◌, ◌||◌, if◌then◌else◌, length, get_elem?, take, drop, Status, success,
  enomem, enodata, Memory, alloc,
}
use veeamsnap.Prelude.Word.{add64}
use veeamsnap.Range.{Range}

-- RANGEVECTOR_EL_CAPACITY
abbrev pub el_capacity : ℕ
el_capacity = 1000

-- `rangevector_t`; the `cnt` of an element is its length.
pub record RangeVector : Type 0 where
  pub els : List (List Range)
  pub blocks_cnt : ℕ

-- The ranges of the elements in order.
abbrev pub slots : List (List Range) → List Range
slots [] = []
slots (el ∷ els) = el ++ slots els

-- `rangevector_init`
pub init : RangeVector
init = record { els = []; blocks_cnt = 0 }

-- The loop of `rangevector_cleanup`: the count when every element is freed.
pub cleanup_loop : List (List Range) → ℕ → ℕ
cleanup_loop [] blocks_cnt = blocks_cnt
cleanup_loop (el ∷ els) blocks_cnt = cleanup_loop els (blocks_cnt - 1)

-- `rangevector_cleanup`, which is `rangevector_done` too
pub cleanup : RangeVector → RangeVector
cleanup v = record { els = []; blocks_cnt = cleanup_loop v.els v.blocks_cnt }

-- Whether there is a last element, and it is not full.
pub has_room : List (List Range) → Bool
has_room [] = false
has_room (el ∷ []) = if length el == el_capacity then false else true
has_room (el ∷ el' ∷ els) = has_room (el' ∷ els)

-- A range behind the others of the last element.
pub push_last : List (List Range) → Range → List (List Range)
push_last [] rg = []
push_last (el ∷ []) rg = (el ++ (rg ∷ [])) ∷ []
push_last (el ∷ el' ∷ els) rg = el ∷ push_last (el' ∷ els) rg

-- `rangevector_add`
pub add : RangeVector → Range → Memory → Status × RangeVector × Memory
add v rg mem =
    if has_room v.els
    then (success, record v { els = push_last v.els rg }, mem)
    else let (granted, mem') = alloc mem in
      if granted
      then (
        success,
        record { els = v.els ++ ((rg ∷ []) ∷ []); blocks_cnt = v.blocks_cnt + 1 },
        mem',
      )
      else (enomem, v, mem')

-- The variables of `rangevector_v2p`: `virt_left`, and what is written on a hit.
pub record V2p : Type 0 where
  pub virt_left : ℕ
  pub hit : Option (ℕ × ℕ)

-- The loop over one element: the `break` leaves this loop only.
unfoldable pub v2p_el : ℕ → ℕ → List Range → V2p → V2p
v2p_el virt_offset virt_length [] s = s
v2p_el virt_offset virt_length (rg ∷ rgs) s =
    let virt_right : ℕ = add64 s.virt_left rg.cnt in
    let next = v2p_el virt_offset virt_length rgs (record s { virt_left = virt_right }) in
    if leb s.virt_left virt_offset && ltb virt_offset virt_right
    then record s {
      hit =
          some
            (add64 rg.ofs (virt_offset - s.virt_left), min virt_length (virt_right - virt_offset));
    }
    else next

-- The loop over the elements.
unfoldable pub v2p_els : ℕ → ℕ → List (List Range) → V2p → V2p
v2p_els virt_offset virt_length [] s = s
v2p_els virt_offset virt_length (el ∷ els) s =
    v2p_els virt_offset virt_length els (v2p_el virt_offset virt_length el s)

-- `result`, with `*p_phys_offset` and `*p_phys_length` where they were written
unfoldable pub v2p_result : Option (ℕ × ℕ) → Status × Option (ℕ × ℕ)
v2p_result none = (enodata, none)
v2p_result (some r) = (success, some r)

abbrev pub v2p_start : V2p
v2p_start = record { virt_left = 0; hit = none }

-- `rangevector_v2p`
unfoldable pub v2p : RangeVector → ℕ → ℕ → Status × Option (ℕ × ℕ)
v2p v virt_offset virt_length = v2p_result (v2p_els virt_offset virt_length v.els v2p_start).hit

pub at_els : ℕ → ℕ → List (List Range) → Option Range
at_els inx curr_inx [] = none
at_els inx curr_inx (el ∷ els) =
    let rest = at_els inx (curr_inx + length el) els in
    if leb curr_inx inx && ltb inx (curr_inx + length el)
    then get_elem? el (inx - curr_inx)
    else rest

-- `rangevector_at`
pub at_index : RangeVector → ℕ → Status × Option Range
at_index v inx = elim (at_els inx 0 v.els) [ none ↦ (enodata, none) | some rg ↦ (success, some rg) ]

pub length_el : List Range → ℕ → ℕ
length_el [] length_sect = length_sect
length_el (rg ∷ rgs) length_sect = length_el rgs (add64 length_sect rg.cnt)

pub length_els : List (List Range) → ℕ → ℕ
length_els [] length_sect = length_sect
length_els (el ∷ els) length_sect = length_els els (length_el el length_sect)

-- `rangevector_length`
pub length_sectors : RangeVector → ℕ
length_sectors v = length_els v.els 0

pub cnt_els : List (List Range) → ℕ → ℕ
cnt_els [] cnt = cnt
cnt_els (el ∷ els) cnt = cnt_els els (cnt + length el)

-- `rangevector_cnt`
pub cnt : RangeVector → ℕ
cnt v = cnt_els v.els 0

-- One pass of `rangevector_sort` over the slots of all the elements: `prange_prev` and the slots
-- after it, with `changed`.
pub bubble : Range → List Range → List Range × Bool
bubble prev [] = (prev ∷ [], false)
bubble prev (rg ∷ rgs) =
    let swaps : Bool = ltb rg.ofs prev.ofs in
    let rest = bubble (if swaps then prev else rg) rgs in
    ((if swaps then rg else prev) ∷ rest.0, swaps || rest.1)

pub sort_pass : List Range → List Range × Bool
sort_pass [] = ([], false)
sort_pass (rg ∷ rgs) = bubble rg rgs

-- The passes until one changes nothing; the first argument bounds their number.
pub sort_loop : ℕ → List Range → Option (List Range)
sort_loop zero rgs = none
sort_loop (suc rounds) rgs =
    let pass = sort_pass rgs in
    let rest = sort_loop rounds pass.0 in if pass.1 then rest else some pass.0

-- A list of ranges put back into elements of the sizes that they had.
pub into_els : List (List Range) → List Range → List (List Range)
into_els [] rgs = []
into_els (el ∷ els) rgs = take (length el) rgs ∷ into_els els (drop (length el) rgs)

-- `rangevector_sort`
pub sort : RangeVector → Option RangeVector
sort v = elim (sort_loop (suc (length (slots v.els) * length (slots v.els))) (slots v.els)) [
  | none ↦ none
  | some rgs ↦ some (record v { els = into_els v.els rgs })
]

-- What `rangevector_el_find_first_hit` ends with: the index of the range found, or NULL, or a read
-- past the ranges of the element.
pub data Found : Type 0 where
  found : ℕ → Found
  missing : Found
  outside : Found

-- The loop, over `index`, `limit_min` and `limit_max`; the first argument bounds its rounds.
pub find_loop : ℕ → List Range → ℕ → ℕ → ℕ → ℕ → ℕ → Option Found
find_loop zero el from_sect to_sect index limit_min limit_max = none
find_loop (suc rounds) el from_sect to_sect index limit_min limit_max = elim (get_elem? el index) [
  | none ↦ some outside
  | some rg ↦
      let increment : ℕ = (limit_max - index) / 2 in
      let decrement : ℕ = (index - limit_min) / 2 in
      let up = find_loop rounds el from_sect to_sect (index + increment) index limit_max in
      let down = find_loop rounds el from_sect to_sect (index - decrement) limit_min index in
      if leb (add64 rg.ofs rg.cnt) from_sect
      then (if increment == 0 then some missing else up)
      else if leb to_sect rg.ofs
      then (if decrement == 0 then some missing else down)
      else some (found index)
]

-- The ranges before the one found, as long as they are hit too.
pub walk_back : List Range → ℕ → ℕ → ℕ → ℕ
walk_back el from_sect to_sect zero = 0
walk_back el from_sect to_sect (suc index) =
    let before = walk_back el from_sect to_sect index in
    elim (get_elem? el index) [
      | none ↦ suc index
      | some rg ↦
          if leb (add64 rg.ofs rg.cnt) from_sect || leb to_sect rg.ofs then suc index else before
    ]

-- After the loop: `found` is the range found, or one before it.
pub check_previous : List Range → ℕ → ℕ → Option Found → Option Found
check_previous el from_sect to_sect (some (found index)) =
    some (found (walk_back el from_sect to_sect index))
check_previous el from_sect to_sect f = f

-- `rangevector_el_find_first_hit`
pub find_first_hit : List Range → ℕ → ℕ → Option Found
find_first_hit el from_sect to_sect =
    check_previous el from_sect to_sect
      (find_loop (suc (length el)) el from_sect to_sect (length el / 2) 0 (length el))
