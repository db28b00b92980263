-- ===== src/BlkDescrArray.antt =====
-- source/blk_descr_array.c: the map from the blocks of a device to the descriptors of the blocks that
-- hold their old contents, in groups of 256 that are allocated on demand. A group belongs to one slot
-- of the array of pointers, so what the code writes through the pointer is written at the slot. The
-- semaphore is held in every operation.
pub mod Laws
pub mod Life
mod Tests
use veeamsnap.Prelude.{
  ℕ, zero, suc, ◌+◌, ◌-◌, ◌*◌, ◌/◌, ◌%◌, Bool, true, false, ◌&&◌, ◌||◌, not, Option, none, some,
  List, [], ltb, leb, ◌==◌, if◌then◌else◌, get_or, set, replicate, Status, success, einval, enomem,
  enodata, is_success, Memory, alloc,
}
use veeamsnap.Prelude.Word.{add64, sub64}
use veeamsnap.PageArray.{
  PageArray, Counters, ptr_get, ptr_set, fill, pointers_in_page, page_array_alloc, page_array_free,
  page_count_calc,
}

-- BLK_DESCR_GROUP_LENGTH
abbrev pub group_length : ℕ
group_length = 256

-- `blk_descr_array_group_t`: bit v of `bitmap` is bit v & 7 of byte v / 8.
pub record Group (V : Type 0) : Type 0 where
  pub cnt : ℕ
  pub bitmap : List Bool
  pub values : List V

-- `blk_descr_array_t`, with an array of pointers
pub record Header (V : Type 0) : Type 0 where
  pub first : ℕ
  pub last : ℕ
  pub groups : PageArray (Option (Group V))
  pub group_count : ℕ

-- `group_count` of `blk_descr_array_init`
unfoldable pub group_count_of : ℕ → ℕ → ℕ
group_count_of first last =
    let n : ℕ = sub64 (add64 last 1) first in
    if n % group_length == 0 then n / group_length else n / group_length + 1

module _ {V : Type 0} (null : V) where
  -- A group as `kzalloc` gives it.
  unfoldable pub new_group : Group V
  new_group = record {
    cnt = 0;
    bitmap = replicate group_length false;
    values = replicate group_length null;
  }

  -- The part of `blk_descr_array_set` that writes the group.
  unfoldable pub write_group : Group V → ℕ → V → Group V
  write_group g val_idx value = record {
    cnt = if get_or g.bitmap val_idx false then g.cnt else g.cnt + 1;
    bitmap = set g.bitmap val_idx true;
    values = set g.values val_idx value;
  }

  -- The part of `blk_descr_array_get` that reads the slot.
  unfoldable pub read_slot : Option (Option (Group V)) → ℕ → Status × Option V
  read_slot none val_idx = (einval, none)
  read_slot (some none) val_idx = (enodata, none)
  read_slot (some (some g)) val_idx =
      if get_or g.bitmap val_idx false
      then (success, some (get_or g.values val_idx null))
      else (enodata, none)

  abbrev pub group_of : Header V → ℕ → ℕ
  group_of h inx = (inx - h.first) / group_length

  abbrev pub slot_at : Header V → ℕ → Option (Option (Group V))
  slot_at h gr_idx = (ptr_get none h.groups gr_idx).1

  -- `blk_descr_array_get`
  unfoldable pub get : Header V → ℕ → Status × Option V
  get h inx =
      if ltb inx h.first || ltb h.last inx
      then (einval, none)
      else read_slot (slot_at h (group_of h inx)) ((inx - h.first) % group_length)

  abbrev pub put_group : Header V → ℕ → Group V → Header V
  put_group h gr_idx g = record h { groups = (ptr_set h.groups gr_idx (some g)).1 }

  -- The part of `blk_descr_array_set` from the pointer on.
  unfoldable pub write_slot :
      Header V → ℕ → Option (Option (Group V)) → ℕ → V → Memory → Status × Header V × Memory
  write_slot h gr_idx none val_idx value mem = (einval, h, mem)
  write_slot h gr_idx (some (some g)) val_idx value mem =
      (success, put_group h gr_idx (write_group g val_idx value), mem)
  write_slot h gr_idx (some none) val_idx value mem =
      let (granted, mem') = alloc mem in
      if granted
      then (if is_success (ptr_set h.groups gr_idx (some new_group)).0
          then (success, put_group h gr_idx (write_group new_group val_idx value), mem')
          else (einval, h, mem'))
      else (enomem, h, mem')

  -- `blk_descr_array_set`
  unfoldable pub set_value : Header V → ℕ → V → Memory → Status × Header V × Memory
  set_value h inx value mem =
      if leb h.first inx && leb inx h.last
      then write_slot h (group_of h inx) (slot_at h (group_of h inx))
          ((inx - h.first) % group_length) value mem
      else (einval, h, mem)

  -- The loop of `blk_descr_array_reset` over the groups that are left: the array, and the groups that
  -- were freed.
  pub reset_slot :
      PageArray (Option (Group V))
      → ℕ
      → Option (Option (Group V))
      → PageArray (Option (Group V)) × ℕ
  reset_slot groups gr_idx (some (some g)) = ((ptr_set groups gr_idx none).1, 1)
  reset_slot groups gr_idx slot = (groups, 0)

  pub reset_loop : ℕ → ℕ → PageArray (Option (Group V)) → PageArray (Option (Group V)) × ℕ
  reset_loop zero gr_idx groups = (groups, 0)
  reset_loop (suc left) gr_idx groups =
      let r = reset_slot groups gr_idx (ptr_get none groups gr_idx).1 in
      let rest = reset_loop left (gr_idx + 1) r.0 in (rest.0, r.1 + rest.1)

  -- `blk_descr_array_reset`
  pub reset : Header V → Header V
  reset h = record h { groups = (reset_loop h.group_count 0 h.groups).0 }

  -- `blk_descr_array_done`: the groups and then the array are freed.
  pub done : Header V → Counters → Counters
  done h c = page_array_free (reset h).groups c

  pub built : ℕ → ℕ → Option (PageArray (Option (Group V))) → Option (Header V)
  built first last none = none
  built first last (some groups) = some (record {
    first = first;
    last = last;
    groups = record { pg = fill pointers_in_page groups.pg none };
    group_count = group_count_of first last;
  })

  -- `blk_descr_array_init`; `junk` is a page as the kernel gives it.
  pub init :
      List (Option (Group V)) → ℕ → ℕ → Counters → Memory → Option (Header V) × Counters × Memory
  init junk first last c mem =
      let r = page_array_alloc junk (page_count_calc (group_count_of first last * 8)) c mem in
      (built first last r.0, r.1, r.2)
