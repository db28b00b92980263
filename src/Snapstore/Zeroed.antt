-- ===== src/Snapstore/Zeroed.antt =====
-- `blk_dev_redirect_read_zeroed` of source/blk_redirect.c: a read of the original device where the module's
-- parameter `zerosnapdata` asks for zeros in place of the sectors of the store's own files.
use veeamsnap.Prelude.{
  ℕ, ◌-◌, Bool, false, some, List, [], ◌∷◌, ◌++◌, leb, ◌&&◌, if◌then◌else◌, length, get_or, Status,
  success,
}
use veeamsnap.Prelude.Word.{add64}
use veeamsnap.Range.{Range, range_empty}
use veeamsnap.RangeVector.{found, find_first_hit}
use veeamsnap.Snapstore.{read, Io, redirect_part}

-- The range found covers the sectors from `from_sect` up to `to_sect`.
pub covers : List Range → ℕ → ℕ → ℕ → Bool
covers el from_sect to_sect i =
    let zero_range : Range = get_or el i range_empty in
    leb zero_range.ofs from_sect && leb to_sect (add64 zero_range.ofs zero_range.cnt)

-- The loop over the elements, which ends at the first one that reaches the sectors: whether it has a range
-- that covers them.
pub is_zero_covering : List (List Range) → ℕ → ℕ → Bool
is_zero_covering [] from_sect to_sect = false
is_zero_covering ([] ∷ els) from_sect to_sect = is_zero_covering els from_sect to_sect
is_zero_covering ((rg ∷ rgs) ∷ els) from_sect to_sect =
    let el : List Range = rg ∷ rgs in
    let last : Range = get_or el (length el - 1) range_empty in
    let rest = is_zero_covering els from_sect to_sect in
    if leb (add64 last.ofs last.cnt) from_sect
    then rest
    else if leb to_sect rg.ofs
    then false
    else elim (find_first_hit el from_sect to_sect) [
      | some f ↦ elim f [ found i ↦ covers el from_sect to_sect i | _ ↦ false ]
      | _ ↦ false
    ]

-- `blk_dev_redirect_read_zeroed`, at the sector `target_pos` of the device.
pub redirect_read_zeroed : List (List Range) → ℕ → ℕ → ℕ → ℕ → Io → Status × Io
redirect_read_zeroed zero_sectors blk_dev target_pos rq_ofs rq_count io =
    if is_zero_covering zero_sectors target_pos (add64 target_pos rq_count)
    then (success, record io { zeroed = io.zeroed ++ (rq_ofs, rq_count) ∷ [] })
    else redirect_part
        (record {
          direction = read;
          blk_dev = blk_dev;
          pos = target_pos;
          rq_ofs = rq_ofs;
          len = rq_count;
        })
        io
