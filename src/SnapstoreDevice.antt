-- ===== src/SnapstoreDevice.antt =====
-- source/snapstore_device.c: the old contents of one device's blocks. Before a block of the device is
-- written it is copied to a block of the store; a read of the snapshot takes a sector from the stored
-- block, or from the device where its block was never copied. The mutex over the map is held in every
-- operation. `blk` is SNAPSTORE_BLK_SIZE. A descriptor is the store with the ranges of the block.
pub mod Requests
pub mod Prepare
pub mod Requested
pub mod Copied
pub mod Source
pub mod Image
mod Tests
use veeamsnap.Prelude.{
  ℕ, zero, suc, ◌+◌, ◌-◌, ◌*◌, ◌/◌, Bool, true, false, Option, none, some, List, [], ◌∷◌, ◌++◌, ltb,
  ◌==◌, if◌then◌else◌, min, Status, success, enomem, enodata, eio, edeadlk, is_success, Memory,
  alloc,
}
use veeamsnap.Prelude.Word.{add64, sub64}
use veeamsnap.Range.{Range}
use veeamsnap.BlkDescrArray.{Header, get, set_value}
use veeamsnap.BlkDescrPool.{Pool, pool_take}
use veeamsnap.Snapstore.{
  Target, no_store, Direction, read, write, Part, Io, redirect, redirect_part,
}
use veeamsnap.Snapstore.Zeroed.{redirect_read_zeroed}

-- The blocks to copy: `blk_deferred_request_t`, with the index and the descriptor of each.
abbrev pub CopyRequest : Type 0
CopyRequest = List (ℕ × Target)

-- `snapstore_device_t`, with the pool and the overflow count of its snapstore
pub record Device : Type 0 where
  pub store_block_map : Header Target
  pub pool : Pool Target
  pub overflowed : ℕ
  pub corrupted : Bool
  pub err_code : Status
  pub req_failed_cnt : ℕ

-- `snapstore_get_empty_block`
pub get_empty_block : Device → Option Target × Device
get_empty_block dev =
    let r = pool_take dev.pool in
    if dev.overflowed == 0
    then (r.0, record dev { pool = r.1; overflowed = elim r.0 [ none ↦ 1 | some _ ↦ 0 ] })
    else (none, dev)

-- `_snapstore_device_is_block_stored`
pub is_block_stored : Device → ℕ → Bool
is_block_stored dev block_index = is_success (get no_store dev.store_block_map block_index).0

-- The device, the request and the allocator.
pub record Prep : Type 0 where
  pub dev : Device
  pub dio_copy_req : Option CopyRequest
  pub mem : Memory

-- The end of `snapstore_device_add_request`: the request is made where there is none, and the block is
-- added. A refused `blk_deferred_alloc` frees the request that was made for it.
pub add_dio : ℕ × Target → Prep → Status × Prep
add_dio dio p = elim p.dio_copy_req [
  | none ↦
      let (made, mem1) = alloc p.mem in
      let (granted, mem2) = alloc mem1 in
      if made
      then (if granted
          then (success, record p { dio_copy_req = some (dio ∷ []); mem = mem2 })
          else (enomem, record p { mem = mem2 }))
      else (enomem, record p { mem = mem1 })
  | some dios ↦
      let (granted, mem1) = alloc p.mem in
      if granted
      then (success, record p { dio_copy_req = some (dios ++ dio ∷ []); mem = mem1 })
      else (enomem, record p { mem = mem1 })
]

-- The middle: the descriptor is put into the map.
pub store_descr : ℕ → Option Target → Prep → Status × Prep
store_descr block_index none p = (enodata, p)
store_descr block_index (some blk_descr) p =
    let r = set_value no_store p.dev.store_block_map block_index blk_descr p.mem in
    let p' : Prep = record p { dev = record p.dev { store_block_map = r.1 }; mem = r.2 } in
    if is_success r.0 then add_dio (block_index, blk_descr) p' else (r.0, p')

-- `snapstore_device_add_request`
pub add_request : ℕ → Prep → Status × Prep
add_request block_index p =
    let r = get_empty_block p.dev in store_descr block_index r.0 (record p { dev = r.1 })

-- The loop of `snapstore_device_prepare_requests`, over the blocks that are left.
pub prepare_loop : ℕ → ℕ → Prep → Status × Prep
prepare_loop zero inx p = (success, p)
prepare_loop (suc left) inx p =
    let r = add_request inx p in
    let skip = prepare_loop left (inx + 1) p in
    let next = prepare_loop left (inx + 1) r.1 in
    if is_block_stored p.dev inx then skip else if is_success r.0 then next else r

-- `snapstore_device_set_corrupted`
pub set_corrupted : Device → Status → Device
set_corrupted dev err =
    if dev.corrupted
    then dev
    else record dev { req_failed_cnt = 0; corrupted = true; err_code = err }

-- `snapstore_device_is_corrupted`
pub is_corrupted : Device → Bool × Device
is_corrupted dev =
    if dev.corrupted
    then (true, record dev { req_failed_cnt = dev.req_failed_cnt + 1 })
    else (false, dev)

abbrev pub first_block : ℕ → Range → ℕ
first_block blk rg = rg.ofs / blk

-- Inclusive; the end of the range is computed in 64 bits.
abbrev pub last_block : ℕ → Range → ℕ
last_block blk rg = sub64 (add64 rg.ofs rg.cnt) 1 / blk

-- `snapstore_device_prepare_requests`
pub prepare_requests : ℕ → Range → Prep → Status × Prep
prepare_requests blk rg p =
    let r = prepare_loop (last_block blk rg + 1 - first_block blk rg) (first_block blk rg) p in
    if is_success r.0 then r else (r.0, record r.1 { dev = set_corrupted r.1.dev r.0 })

-- What became of the request at the end of `_snapstore_device_copy_on_write`.
pub data Fate : Type 0 where
  no_request freed deadlocked : Fate

-- The blocks of a request, none for no request.
pub blocks_of : Option CopyRequest → CopyRequest
blocks_of none = []
blocks_of (some dios) = dios

-- The part of `_snapstore_device_copy_on_write` after the preparation; the reading of the original and
-- the storing end with the statuses given.
pub copy_blocks : Status → Status → Status × Prep → Status × Device × Fate
copy_blocks read_res store_res (res, p) =
    let fate : Status → Fate = λ (s : Status). elim p.dio_copy_req [
      | none ↦ no_request
      | some _ ↦ elim s [ edeadlk ↦ deadlocked | _ ↦ freed ]
    ] in
    if is_success res
    then elim p.dio_copy_req [
      | none ↦ (success, p.dev, no_request)
      | some _ ↦
          if is_success read_res
          then (if is_success store_res
              then (success, p.dev, fate success)
              else (store_res, set_corrupted p.dev store_res, fate store_res))
          else (read_res, p.dev, fate read_res)
    ]
    else (res, p.dev, fate res)

-- `_snapstore_device_copy_on_write`
pub copy_on_write : ℕ → Status → Status → Range → Device → Memory → Status × Device × Fate
copy_on_write blk read_res store_res rg dev mem =
    copy_blocks read_res store_res
      (prepare_requests blk rg (record { dev = dev; dio_copy_req = none; mem = mem }))

-- How a part of a request is served: what the map says of the block. `zero_sectors` are the elements of the
-- device's range vector of that name where the parameter `zerosnapdata` is set, and none where it is 0.
pub serve :
    ℕ
    → Direction
    → ℕ
    → Option (List (List Range))
    → Status × Option Target
    → ℕ
    → ℕ
    → ℕ
    → Io
    → Status × Io
serve blk dir orig zero_sectors (success, some blk_descr) target_pos rq_ofs rq_count io =
    redirect blk dir blk_descr target_pos rq_ofs rq_count io
serve blk read orig (some els) (enodata, _) target_pos rq_ofs rq_count io =
    redirect_read_zeroed els orig target_pos rq_ofs rq_count io
serve blk read orig none (enodata, _) target_pos rq_ofs rq_count io =
    redirect_part
      (record {
        direction = read;
        blk_dev = orig;
        pos = target_pos;
        rq_ofs = rq_ofs;
        len = rq_count;
      })
      io
serve blk write orig zero_sectors (enodata, _) target_pos rq_ofs rq_count io = (eio, io)
serve blk dir orig zero_sectors (res, _) target_pos rq_ofs rq_count io = (res, io)

-- The sectors of the request that fall into a block, from `blk_ofs_start` on.
abbrev pub blk_ofs_count : ℕ → Range → ℕ → ℕ → ℕ
blk_ofs_count blk rg block_index blk_ofs_start =
    min ((block_index + 1) * blk - (rg.ofs + blk_ofs_start)) (rg.cnt - blk_ofs_start)

-- The loops of `snapstore_device_read` and `snapstore_device_write`, over the blocks that are left.
pub serve_loop :
    ℕ
    → Direction
    → ℕ
    → Option (List (List Range))
    → Header Target
    → Range
    → ℕ
    → ℕ
    → ℕ
    → Io
    → Status × Io
serve_loop blk dir orig zero_sectors map rg zero block_index blk_ofs_start io = (success, io)
serve_loop blk dir orig zero_sectors map rg (suc left) block_index blk_ofs_start io =
    let count : ℕ = blk_ofs_count blk rg block_index blk_ofs_start in
    let r =
      serve blk dir orig zero_sectors (get no_store map block_index) (rg.ofs + blk_ofs_start)
        blk_ofs_start count io in
    let rest =
      serve_loop blk dir orig zero_sectors map rg left (block_index + 1) (blk_ofs_start + count)
        r.1 in
    if is_success r.0 then rest else r

abbrev pub serve_all :
    ℕ → Direction → ℕ → Option (List (List Range)) → Device → Range → Io → Status × Io
serve_all blk dir orig zero_sectors dev rg io =
    serve_loop blk dir orig zero_sectors dev.store_block_map rg
      (last_block blk rg + 1 - first_block blk rg) (first_block blk rg) 0 io

-- `snapstore_device_read`; an empty request is complete at once.
pub device_read : ℕ → ℕ → Option (List (List Range)) → Range → Device → Io → Status × Device × Io
device_read blk orig zero_sectors rg dev io =
    let c = is_corrupted dev in
    let r = serve_all blk read orig zero_sectors dev rg io in
    if c.0 then (enodata, c.1, io) else if rg.cnt == 0 then (success, dev, io) else (r.0, dev, r.1)

-- `snapstore_device_write`: what the copy returned is not looked at.
pub device_write : ℕ → ℕ → Status → Status → Range → Device → Memory → Io → Status × Device × Io
device_write blk orig read_res store_res rg dev mem io =
    let c = is_corrupted dev in
    let copied = copy_on_write blk read_res store_res rg dev mem in
    let r = serve_all blk write orig none copied.1 rg io in
    if c.0
    then (enodata, c.1, io)
    else if rg.cnt == 0
    then (success, dev, io)
    else (r.0, if is_success r.0 then copied.1 else set_corrupted copied.1 r.0, r.1)
