-- ===== src/CbtMap.antt =====
-- source/cbt_map.c: the table of changed blocks of one device, a byte for each block. A byte is the
-- number of the snapshot interval in which its block was last written. The spinlock is held in every
-- operation, so an operation is one step; a new generation id comes from the caller.
pub mod Table
pub mod Size
pub mod History
mod Tests
use veeamsnap.Prelude.{
  ℕ, zero, suc, ◌+◌, ◌-◌, ◌*◌, ◌/◌, ◌%◌, ◌^◌, Bool, true, false, Option, none, some, List, [], ◌∷◌,
  ltb, leb, ◌==◌, if◌then◌else◌, min, Status, success, einval, is_success, Memory,
}
use veeamsnap.Prelude.Word.{add64, sub64}
use veeamsnap.PageArray.{
  PageArray, Counters, byte_get, byte_set, page_array_memset, page_array_memcpy, page_array_alloc,
  page_array_free, page_size,
}

-- `cbt_map_t`
pub record CbtMap : Type 0 where
  pub sect_in_block_degree : ℕ
  pub device_capacity : ℕ
  pub map_size : ℕ
  pub read_map : PageArray ℕ
  pub write_map : PageArray ℕ
  pub snap_number_active : ℕ
  pub snap_number_previous : ℕ
  pub generation_active : ℕ
  pub generation_previous : ℕ
  pub active : Bool
  pub state_changed_sectors : ℕ
  pub state_dirty_sectors : ℕ

-- `count_by_shift`
pub count_by_shift : ℕ → ℕ → ℕ
count_by_shift capacity shift = sub64 (add64 capacity (2 ^ shift)) 1 / 2 ^ shift

-- `get_tracking_block_maximum_count`
abbrev pub maximum_count : ℕ
maximum_count = 256 * 1024 * 1024

-- `cbt_map_check_size`; the first argument bounds the rounds of the loop.
pub check_size : ℕ → ℕ → ℕ → Option ℕ
check_size zero shift capacity = none
check_size (suc rounds) shift capacity =
    let rest = check_size rounds (shift + 1) capacity in
    if ltb maximum_count (count_by_shift capacity shift) then rest else some shift

-- The size of the table that `cbt_map_allocate` computes. Its mask is a shift of an int, which is this for
-- the degrees below 31.
pub map_size_of : ℕ → ℕ → ℕ
map_size_of degree capacity =
    if capacity % 2 ^ degree == 0 then capacity / 2 ^ degree else capacity / 2 ^ degree + 1

-- `cbt_map_allocate` and, where it fails, the `cbt_map_deallocate` of its caller. A NULL table is
-- `none`, and is not freed.
pub free_map : Option (PageArray ℕ) → Counters → Counters
free_map none c = c
free_map (some arr) c = page_array_free arr c

pub allocated :
    ℕ → ℕ → ℕ → Option (PageArray ℕ) → Option (PageArray ℕ) → Counters → Option CbtMap × Counters
allocated degree capacity uuid (some read) (some write) c = (
  some (record {
    sect_in_block_degree = degree;
    device_capacity = capacity;
    map_size = map_size_of degree capacity;
    read_map = page_array_memset read 0;
    write_map = page_array_memset write 0;
    snap_number_active = 1;
    snap_number_previous = 0;
    generation_active = uuid;
    generation_previous = uuid;
    active = true;
    state_changed_sectors = 0;
    state_dirty_sectors = 0;
  }),
  c,
)
allocated degree capacity uuid read write c = (none, free_map write (free_map read c))

-- The pages of a table of so many bytes.
pub pages_of : ℕ → ℕ
pages_of map_size =
    if map_size % page_size == 0 then map_size / page_size else map_size / page_size + 1

pub allocate : List ℕ → ℕ → ℕ → ℕ → Counters → Memory → (Option CbtMap × Counters) × Memory
allocate junk uuid degree capacity c mem =
    let page_cnt = pages_of (map_size_of degree capacity) in
    let read = page_array_alloc junk page_cnt c mem in
    let write = page_array_alloc junk page_cnt read.1 read.2 in
    (allocated degree capacity uuid read.0 write.0 write.1, write.2)

-- `cbt_map_switch`; `uuid` is what `veeam_generate_random_uuid` would give.
pub switch : ℕ → CbtMap → CbtMap
switch uuid m =
    let next : ℕ = m.snap_number_active + 1 in
    let copied : CbtMap = record m {
      read_map = page_array_memcpy m.read_map m.write_map;
      snap_number_previous = m.snap_number_active;
      snap_number_active = next;
      generation_previous =
          if m.snap_number_active == 1 then m.generation_active else m.generation_previous;
    } in
    if next == 256
    then record copied {
      snap_number_active = 1;
      generation_active = uuid;
      write_map = page_array_memset m.write_map 0;
    }
    else copied

-- One block of the loop of `_cbt_map_set`.
pub set_block : ℕ → ℕ → ℕ → PageArray ℕ → Status × PageArray ℕ
set_block map_size snap_number cbt_block map =
    if ltb cbt_block map_size
    then (let (res, got) = byte_get map cbt_block in
        elim got [
          | none ↦ (res, map)
          | some num ↦
              if ltb num snap_number then byte_set map cbt_block snap_number else (res, map)
        ])
    else (einval, map)

-- The loop, over the blocks that are left.
pub set_blocks : ℕ → ℕ → ℕ → ℕ → PageArray ℕ → Status × PageArray ℕ
set_blocks map_size snap_number zero cbt_block map = (success, map)
set_blocks map_size snap_number (suc left) cbt_block map =
    let r = set_block map_size snap_number cbt_block map in
    let rest = set_blocks map_size snap_number left (cbt_block + 1) r.1 in
    if is_success r.0 then rest else r

abbrev pub first_block : CbtMap → ℕ → ℕ
first_block m sector_start = sector_start / 2 ^ m.sect_in_block_degree

-- Inclusive.
abbrev pub last_block : CbtMap → ℕ → ℕ → ℕ
last_block m sector_start sector_cnt =
    sub64 (add64 sector_start sector_cnt) 1 / 2 ^ m.sect_in_block_degree

-- `_cbt_map_set`
pub set_range : CbtMap → ℕ → ℕ → ℕ → PageArray ℕ → Status × PageArray ℕ
set_range m sector_start sector_cnt snap_number map =
    set_blocks m.map_size snap_number
      (last_block m sector_start sector_cnt + 1 - first_block m sector_start)
      (first_block m sector_start) map

-- `cbt_map_set`
pub set_changed : CbtMap → ℕ → ℕ → Status × CbtMap
set_changed m sector_start sector_cnt =
    let r = set_range m sector_start sector_cnt (m.snap_number_active % 256) m.write_map in
    (
      r.0,
      record m {
        write_map = r.1;
        state_changed_sectors = add64 m.state_changed_sectors sector_cnt;
      },
    )

-- `cbt_map_set_both`
pub set_both : CbtMap → ℕ → ℕ → Status × CbtMap
set_both m sector_start sector_cnt =
    let w = set_range m sector_start sector_cnt (m.snap_number_active % 256) m.write_map in
    let r =
      if is_success w.0
      then set_range m sector_start sector_cnt (m.snap_number_previous % 256) m.read_map
      else (w.0, m.read_map) in
    (
      r.0,
      record m {
        write_map = w.1;
        read_map = r.1;
        state_dirty_sectors = add64 m.state_dirty_sectors sector_cnt;
      },
    )
