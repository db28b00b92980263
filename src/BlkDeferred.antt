-- ===== src/BlkDeferred.antt =====
-- source/blk_deferred.c and blk_deferred.h, as built with BLK_DEFER_LIST: the blocks that are copied
-- before a write, read from the original device into pages and stored. `spp` is SECTORS_IN_PAGE. A bio is
-- what it transfers: the sectors of the device with those of the page array, in order. The kernel's
-- `bio_alloc_bioset` and `bio_add_page` answer by lists; past their ends they succeed.
pub mod Submit
pub mod Complete
pub mod Copy
mod Segments
mod Portion
mod Tests
use veeamsnap.Prelude.{
  ℕ, zero, suc, ◌+◌, ◌-◌, ◌*◌, ◌/◌, ◌%◌, Bool, true, false, Option, none, some, List, [], ◌∷◌, ◌++◌,
  ltb, leb, ◌==◌, if◌then◌else◌, min, Status, success, enodata, eio, edeadlk, is_success, Memory,
  alloc,
}
use veeamsnap.Range.{Range}

-- A sector of the device, with the sector of the page array.
abbrev pub Transfer : Type 0
Transfer = List (ℕ × ℕ)

-- `n` sectors from `ofs` on, with those of the page array from `arr_ofs` on.
abbrev pub segment : ℕ → ℕ → ℕ → Transfer
segment ofs arr_ofs zero = []
segment ofs arr_ofs (suc n) = (ofs, arr_ofs) ∷ segment (ofs + 1) (arr_ofs + 1) n

-- What the kernel will answer, and what was submitted.
pub record Bios : Type 0 where
  pub allocs : Memory
  pub adds : Memory
  pub sent : Transfer

-- The loop that allocates the bio: half the size, in whole pages, where it is refused; 0 for none.
pub bio_size : ℕ → ℕ → Memory → ℕ × Memory
bio_size spp size_sector [] = (size_sector, [])
bio_size spp size_sector (true ∷ allocs) = (size_sector, allocs)
bio_size spp size_sector (false ∷ allocs) =
    let half : ℕ = size_sector / 2 / spp * spp in
    let rest = bio_size spp half allocs in if half == 0 then (0, allocs) else rest

-- A page of a bio: `bio_add_page(bio, page, len, offset)`, in sectors
pub record BioVec : Type 0 where
  pub page : ℕ
  pub len : ℕ
  pub offset : ℕ

-- What a bio at a sector transfers: its pages one after the other.
pub bio_transfer : ℕ → ℕ → List BioVec → Transfer
bio_transfer spp sector [] = []
bio_transfer spp sector (v ∷ vs) =
    segment sector (v.page * spp + v.offset) v.len ++ bio_transfer spp (sector + v.len) vs

-- The loop that adds the pages after the first, with what it adds: `left` pages of the array are left.
pub add_pages : ℕ → ℕ → ℕ → ℕ → ℕ → Memory → ℕ × List BioVec × Memory
add_pages spp zero page_inx process_sect size_sector adds = (process_sect, [], adds)
add_pages spp (suc left) page_inx process_sect size_sector adds =
    let added = alloc adds in
    let bvec_len_sect : ℕ = min spp (size_sector - process_sect) in
    let rest =
      add_pages spp left (page_inx + 1) (process_sect + bvec_len_sect) size_sector added.1 in
    if ltb process_sect size_sector
    then (if added.0
        then (rest.0, record { page = page_inx; len = bvec_len_sect; offset = 0 } ∷ rest.1, rest.2)
        else (process_sect, [], added.1))
    else (process_sect, [], adds)

-- `_blk_deferred_submit_pages`, of an array of `pg_cnt` pages: `none` for the BUG_ON of a first page above
-- them, and for the page right behind them, which is read outside of the array.
pub submit_portion : ℕ → ℕ → ℕ → ℕ → ℕ → Bios → Option (ℕ × Bios)
submit_portion spp arr_ofs pg_cnt ofs_sector size_sector io =
    let (size, allocs) = bio_size spp size_sector io.allocs in
    let page_inx : ℕ = arr_ofs / spp in
    let unordered : ℕ = arr_ofs % spp in
    let bvec_len_sect : ℕ = min (spp - unordered) size in
    let added = alloc io.adds in
    let r = add_pages spp (pg_cnt - (page_inx + 1)) (page_inx + 1) bvec_len_sect size added.1 in
    let vecs : List BioVec =
      record { page = page_inx; len = bvec_len_sect; offset = unordered } ∷ r.1 in
    if size == 0
    then some (0, record io { allocs = allocs })
    else if leb pg_cnt page_inx
    then none
    else if added.0
    then some (
      r.0,
      record { allocs = allocs; adds = r.2; sent = io.sent ++ bio_transfer spp ofs_sector vecs },
    )
    else some (0, record io { allocs = allocs; adds = added.1 })

-- `blk_deferred_submit_pages`, with the sectors processed. A round that does not end the loop processes
-- one sector or more, so fuel above the size is enough.
pub submit_loop : ℕ → ℕ → ℕ → ℕ → ℕ → ℕ → ℕ → Bios → Option (ℕ × Bios)
submit_loop zero spp arr_ofs pg_cnt ofs_sector size_sector process_sect io = none
submit_loop (suc fuel) spp arr_ofs pg_cnt ofs_sector size_sector process_sect io =
    elim (submit_portion spp (arr_ofs + process_sect) pg_cnt (ofs_sector + process_sect)
      (size_sector - process_sect) io) [
        | none ↦ none
        | some (portion_sect, io') ↦
            let done : ℕ = process_sect + portion_sect in
            let rest = submit_loop fuel spp arr_ofs pg_cnt ofs_sector size_sector done io' in
            if portion_sect == 0
            then some (process_sect, io')
            else if ltb done size_sector
            then rest
            else some (done, io')
      ]

pub submit_pages : ℕ → ℕ → ℕ → ℕ → ℕ → Bios → Option (ℕ × Bios)
submit_pages spp arr_ofs pg_cnt ofs_sector size_sector io =
    submit_loop (suc size_sector) spp arr_ofs pg_cnt ofs_sector size_sector 0 io

-- `blk_deferred_t`: the block, its sectors on the device, and the ranges of its descriptor
pub record Deferred : Type 0 where
  pub blk_index : ℕ
  pub descr : List Range
  pub sect : Range
  pub pg_cnt : ℕ

-- `blk_deferred_alloc` of a block of `blk` sectors, with the pages or none
pub deferred_alloc : ℕ → ℕ → ℕ → List Range → Memory → Option Deferred × Memory
deferred_alloc blk spp block_index descr mem =
    let (granted, mem1) = alloc mem in
    let (paged, mem2) = alloc mem1 in
    if granted
    then (
      if paged
          then some (record {
            blk_index = block_index;
            descr = descr;
            sect = record { ofs = block_index * blk; cnt = blk };
            pg_cnt = blk / spp;
          })
          else none,
      mem2,
    )
    else (none, mem1)

-- `blk_deferred_request_t`; `completed` is `complete` done
pub record Request : Type 0 where
  pub dios : List Deferred
  pub sect_len : ℕ
  pub sect_processed : ℕ
  pub result : Status
  pub completed : Bool

-- `blk_deferred_request_new`
abbrev pub request_new : Request
request_new = record {
  dios = [];
  sect_len = 0;
  sect_processed = 0;
  result = success;
  completed = false;
}

already_in : List Deferred → ℕ → Bool
already_in [] block_index = false
already_in (dio ∷ dios) block_index =
    if dio.blk_index == block_index then true else already_in dios block_index

-- `blk_deferred_request_already_added`
pub request_already_added : Request → ℕ → Bool
unfolding already_in
request_already_added req block_index = already_in req.dios block_index

-- `blk_deferred_request_add`
pub request_add : Request → Deferred → Request
request_add req dio = record req {
  dios = req.dios ++ dio ∷ [];
  sect_len = req.sect_len + dio.sect.cnt;
}

-- `blk_deferred_request_waiting_skip`
pub waiting_skip : Request → Request
waiting_skip req = record req { completed = false; sect_processed = 0 }

-- The first half of `blk_deferred_complete`: the portion is counted, and the waiter woken after the last.
pub complete_count : ℕ → Request → Request
complete_count portion_sect_cnt req =
    let processed : ℕ = req.sect_processed + portion_sect_cnt in
    record req {
      sect_processed = processed;
      completed = if req.sect_len == processed then true else req.completed;
    }

-- The second half: a failure is kept.
pub complete_result : Status → Request → Request
complete_result result req = if is_success result then req else record req { result = result }

-- The writes of `blk_deferred_complete` to the request, in the order in which another thread sees them.
pub complete_steps : ℕ → Status → List (Request → Request)
complete_steps portion_sect_cnt result =
    complete_count portion_sect_cnt ∷ complete_result result ∷ []

-- Steps one after the other.
pub run_steps : List (Request → Request) → Request → Request
run_steps [] req = req
run_steps (step ∷ steps) req = run_steps steps (step req)

-- `blk_deferred_complete`
pub complete : ℕ → Status → Request → Request
complete portion_sect_cnt result req = run_steps (complete_steps portion_sect_cnt result) req

-- `blk_deferred_request_wait`: what it returns when it looks at the request, `timeout` after 60 seconds;
-- `none` while it waits.
pub request_wait : Bool → Request → Option Status
request_wait timeout req =
    if req.completed then some req.result else if timeout then some edeadlk else none

-- The loop of `blk_deferred_request_read_original`, with the pages filled: every block is submitted to
-- its own pages.
pub read_loop : ℕ → List Deferred → Status → Bios → Option (Status × List Transfer × Bios)
read_loop spp [] res io = some (res, [], io)
read_loop spp (dio ∷ dios) res io =
    elim (submit_pages spp 0 dio.pg_cnt dio.sect.ofs dio.sect.cnt (record io { sent = [] })) [
      | none ↦ none
      | some (n, io') ↦
          if n == dio.sect.cnt
          then elim (read_loop spp dios success io') [
            | none ↦ none
            | some (res', sent, io'') ↦ some (res', io'.sent ∷ sent, io'')
          ]
          else some (eio, io'.sent ∷ [], io')
    ]

-- `blk_deferred_request_read_original`, up to the wait; ENODATA for no block
pub read_original : ℕ → Request → Bios → Option (Status × List Transfer × Bios)
read_original spp req io = read_loop spp req.dios enodata io

-- The loop of `blk_deferred_request_store_file` over the ranges of a block; a portion that was not
-- submitted whole is a BUG_ON, `none`.
pub store_ranges : ℕ → ℕ → List Range → ℕ → Bios → Option Bios
store_ranges spp pg_cnt [] page_array_ofs io = some io
store_ranges spp pg_cnt (rg ∷ rgs) page_array_ofs io =
    elim (submit_pages spp page_array_ofs pg_cnt rg.ofs rg.cnt io) [
      | none ↦ none
      | some (n, io') ↦
          if n == rg.cnt then store_ranges spp pg_cnt rgs (page_array_ofs + rg.cnt) io' else none
    ]

-- The loop of `blk_deferred_request_store_file` over the blocks
pub store_file : ℕ → List Deferred → Bios → Option (List Transfer × Bios)
store_file spp [] io = some ([], io)
store_file spp (dio ∷ dios) io =
    elim (store_ranges spp dio.pg_cnt dio.descr 0 (record io { sent = [] })) [
      | none ↦ none
      | some io' ↦ elim (store_file spp dios io') [
        | none ↦ none
        | some (sent, io'') ↦ some (io'.sent ∷ sent, io'')
      ]
    ]
