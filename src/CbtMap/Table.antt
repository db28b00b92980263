-- ===== src/CbtMap/Table.antt =====
-- The table of cbt_map.c: what marking a range of sectors changes.
use veeamsnap.Prelude.{
  ℕ, zero, suc, ◌+◌, ◌-◌, ◌*◌, ◌/◌, ◌^◌, ◌<◌, ◌≤◌, ◌≡◌, ap, ◌∙◌, Bool, ltb, leb, ◌==◌, ◌&&◌,
  if◌then◌else◌, success, einval, arith,
}
use veeamsnap.PageArray.{PageArray, page_size, pg_cnt}
use veeamsnap.PageArray.Items.{Paged, byte, byte_get-byte, byte_set-in}
use veeamsnap.Prelude.Word.{word, add64, sub64}
use native.Mathlib.Nat.{div-lt_iff_lt-mul, le-div_iff_mul-le, one-le-pow, div-add-mod}
use veeamsnap.CbtMap.{set_range, first_block, last_block, CbtMap, set_block, set_blocks}

-- A table of pages that holds `map_size` bytes.
pub record Holds (map_size : ℕ) (map : PageArray ℕ) : Type 0 where
  pub paged : Paged page_size map
  pub covers : map_size ≤ page_size * pg_cnt map

abbrev pub raise : ℕ → ℕ → ℕ
raise old new = if ltb old new then new else old

-- Marking one block of the table raises its byte to the number, and changes no other.
set_block-mark :
    (map_size number block j : ℕ) (map : PageArray ℕ)
    → Holds map_size map
    → let r = set_block map_size number block map in
      Holds map_size r.1
      × (r.0 ≡ (if ltb block map_size then success else einval))
      × (byte r.1 j
          ≡ (if ltb block map_size && block == j then raise (byte map j) number else byte map j))
      × (pg_cnt r.1 ≡ pg_cnt map)
unfolding set_block
set_block-mark map_size number block j map v =
    ground (arith, v, byte_get-byte map block, byte_set-in map block j number v.paged)

-- Marking `left` blocks from `block` on, in a map that has room for the table: those of the table are raised, and the loop stops with EINVAL
-- at the first that is not.
pub set_blocks-mark :
    (map_size number left block j : ℕ) (map : PageArray ℕ)
    → Holds map_size map
    → let r = set_blocks map_size number left block map in
      Holds map_size r.1
      × (r.0 ≡ (if leb left (map_size - block) then success else einval))
      × (byte r.1 j ≡ (
          if ltb j map_size && leb block j && ltb j (block + left)
          then raise (byte map j) number
          else byte map j))
      × (pg_cnt r.1 ≡ pg_cnt map)
unfolding set_blocks
set_blocks-mark map_size number zero block j map v = ground (arith, v)
set_blocks-mark map_size number (suc left) block j map v = ground (
  arith,
  set_block-mark map_size number block j map v,
  set_blocks-mark map_size number left (block + 1) j (set_block map_size number block map).1,
)

-- A block has a sector of a range.
abbrev pub touches : ℕ → ℕ → ℕ → ℕ → Bool
touches degree sector_start sector_cnt j =
    ltb sector_start ((j + 1) * 2 ^ degree) && ltb (j * 2 ^ degree) (sector_start + sector_cnt)

-- The blocks from the first to the last are those that touch the range.
between :
    (b start cnt j : ℕ)
    → 0 < b
    → 0 < cnt
    → start + cnt < word
    → leb (start / b) j && leb j (sub64 (add64 start cnt) 1 / b)
      ≡ ltb start ((j + 1) * b) && ltb (j * b) (start + cnt)
between b start cnt j pos some_cnt h = ground (
  arith,
  div-lt_iff_lt-mul {k = b} {x = start} {y = j + 1} pos,
  le-div_iff_mul-le {k = b} {x = j} {y = sub64 (add64 start cnt) 1} pos,
)

-- Marking a range of one sector or more that lies in the device, in a map that holds a block for each of
-- its sectors, succeeds: the blocks with a sector of the range are raised
-- to the number, and the others are as before.
pub set_range-mark :
    (m : CbtMap) (sector_start sector_cnt number j : ℕ) (map : PageArray ℕ)
    → Holds m.map_size map
    → m.device_capacity < word
    → m.device_capacity ≤ m.map_size * 2 ^ m.sect_in_block_degree
    → 0 < sector_cnt
    → sector_start + sector_cnt ≤ m.device_capacity
    → let r = set_range m sector_start sector_cnt number map in
      (r.0 ≡ success)
      × Holds m.map_size r.1
      × (byte r.1 j ≡ (
          if touches m.sect_in_block_degree sector_start sector_cnt j
          then raise (byte map j) number
          else byte map j))
      × (pg_cnt r.1 ≡ pg_cnt map)
unfolding set_range
set_range-mark m sector_start sector_cnt number j map v small covered pos inside =
    let b : ℕ = 2 ^ m.sect_in_block_degree in
    let b_pos : 0 < b = one-le-pow m.sect_in_block_degree 2 (omega arith) in
    let first : ℕ = first_block m sector_start in
    let last : ℕ = last_block m sector_start sector_cnt in
    let last_in : last < m.map_size =
      (div-lt_iff_lt-mul {k = b} {x = sub64 (add64 sector_start sector_cnt) 1} {y = m.map_size}
          b_pos).1
        (omega (arith, small, covered, pos, inside)) in
    let ordered : first ≤ last =
      (le-div_iff_mul-le {k = b} {x = first} {y = sub64 (add64 sector_start sector_cnt) 1} b_pos).1
        (omega (arith, small, pos, inside, div-add-mod sector_start b)) in
    let marks = set_blocks-mark m.map_size number (last + 1 - first) first j map v in
    let where_is = between b sector_start sector_cnt j b_pos pos (omega (arith, small, inside)) in
    (
      ground (arith, marks.1, last_in, ordered),
      marks.0,
      marks.2
          ∙ ap (λ t. if t then raise (byte map j) number else byte map j)
              {x = ltb j m.map_size && leb first j && ltb j (first + (last + 1 - first))}
              (ground (arith, last_in, ordered) ∙ where_is),
      marks.3,
    )
