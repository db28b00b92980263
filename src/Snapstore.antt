-- ===== src/Snapstore.antt =====
-- source/snapstore.c: how a file store is cut into blocks (`snapstore_add_file`, over the ranges of
-- source/rangelist.c and the pool of blocks), and how a request to a stored block is sent to the
-- sectors that hold it (`snapstore_redirect_read` and `snapstore_redirect_write`). `blk` is
-- SNAPSTORE_BLK_SIZE, a power of two, so that `x & SNAPSTORE_BLK_MASK` is `x % blk`.
pub mod Border
pub mod AddFile
mod Pieces
pub mod Sectors
pub mod Redirect
pub mod Zeroed
mod Tests
use veeamsnap.Prelude.{
  ℕ, zero, suc, ◌+◌, ◌-◌, ◌*◌, ◌/◌, ◌%◌, Bool, true, false, Option, none, some, List, [], ◌∷◌, ◌++◌,
  ltb, leb, ◌==◌, if◌then◌else◌, min, Status, success, einval, enomem, enodata, is_success, Memory,
  alloc,
}
use veeamsnap.Prelude.Word.{sub64}
use veeamsnap.Range.{Range}
use veeamsnap.BlkDescrPool.{Pool, pool_alloc}

-- `rangelist_add`
pub rangelist_add : List Range → Range → Memory → Status × List Range × Memory
rangelist_add rglist rg mem =
    let (granted, mem') = alloc mem in
    if granted then (success, rglist ++ rg ∷ [], mem') else (enomem, rglist, mem')

-- `rangelist_get`
pub rangelist_get : List Range → Status × Option Range × List Range
rangelist_get [] = (enodata, none, [])
rangelist_get (rg ∷ rglist) = (success, some rg, rglist)

-- `snapstore_order_border`
pub order_border : ℕ → Range → Range
order_border blk rg =
    let unorder_ofs : ℕ = rg.ofs % blk in
    let cnt : ℕ = rg.cnt + unorder_ofs in
    let unorder_cnt : ℕ = cnt % blk in
    record {
      ofs = rg.ofs - unorder_ofs;
      cnt = if unorder_cnt == 0 then cnt else cnt + (blk - unorder_cnt);
    }

-- The variables of `snapstore_add_file`, the store's pool and the allocator.
pub record Adding : Type 0 where
  pub blk_rangelist : List Range
  pub current_blk_size : ℕ
  pub pool : Pool (List Range)
  pub mem : Memory

-- A piece was put into the block: where the block is full it goes to the pool.
pub close_block : ℕ → ℕ → Adding → Status × Adding
close_block blk capacity st =
    let r = pool_alloc capacity st.pool st.blk_rangelist st.mem in
    if st.current_blk_size == blk
    then (if is_success r.0
        then (success, record { blk_rangelist = []; current_blk_size = 0; pool = r.1; mem = r.2 })
        else (enomem, record st { mem = r.2 }))
    else (success, st)

-- The body of the inner loop, for a piece of a range.
pub add_piece : ℕ → ℕ → Range → Adding → Status × Adding
add_piece blk capacity rg st =
    let r = rangelist_add st.blk_rangelist rg st.mem in
    if is_success r.0
    then close_block blk capacity (record st {
      blk_rangelist = r.1;
      current_blk_size = st.current_blk_size + rg.cnt;
      mem = r.2;
    })
    else (enomem, record st { mem = r.2 })

-- The piece that starts at an offset of the range.
abbrev pub piece : ℕ → Range → ℕ → Adding → Range
piece blk range range_offset st = record {
  ofs = range.ofs + range_offset;
  cnt = min (range.cnt - range_offset) (blk - st.current_blk_size);
}

-- The inner loop; the first argument bounds its rounds.
pub add_range : ℕ → ℕ → ℕ → Range → ℕ → Adding → Option (Status × Adding)
add_range zero blk capacity range range_offset st = none
add_range (suc rounds) blk capacity range range_offset st =
    let rg : Range = piece blk range range_offset st in
    let r = add_piece blk capacity rg st in
    let rest = add_range rounds blk capacity range (range_offset + rg.cnt) r.1 in
    if ltb range_offset range.cnt
    then (if is_success r.0 then rest else some r)
    else some (success, st)

-- `struct ioctl_range_s`: the bytes from `left` to `right`
pub record IoctlRange : Type 0 where
  pub left : ℕ
  pub right : ℕ

-- SECTOR_SIZE, by which `sector_from_streamsize` divides
abbrev pub sector_size : ℕ
sector_size = 512

pub range_of : IoctlRange → Range
range_of r = record {
  ofs = r.left / sector_size;
  cnt = sub64 (r.right / sector_size) (r.left / sector_size);
}

-- What follows a range in the outer loop.
pub after_range :
    (Adding → Option (Status × Adding)) → Option (Status × Adding) → Option (Status × Adding)
after_range others none = none
after_range others (some (res, st)) = if is_success res then others st else some (res, st)

-- The outer loop. A range of c sectors is cut into at most c pieces.
pub add_ranges : ℕ → ℕ → List IoctlRange → Adding → Option (Status × Adding)
add_ranges blk capacity [] st = some (success, st)
add_ranges blk capacity (r ∷ ranges) st =
    after_range (add_ranges blk capacity ranges)
      (add_range (suc (range_of r).cnt) blk capacity (range_of r) 0 st)

-- `snapstore_add_file`, for a store that was found and has a file
pub add_file : ℕ → ℕ → List IoctlRange → Pool (List Range) → Memory → Option (Status × Adding)
add_file blk capacity ranges pool mem =
    let start : Adding = record {
      blk_rangelist = [];
      current_blk_size = 0;
      pool = pool;
      mem = mem;
    } in
    elim ranges [ [] ↦ some (einval, start) | r ∷ rs ↦ add_ranges blk capacity (r ∷ rs) start ]

pub data Direction : Type 0 where
  read write : Direction

-- One call of `blk_dev_redirect_part`: the sectors of the device and of the request.
pub record Part : Type 0 where
  pub direction : Direction
  pub blk_dev : ℕ
  pub pos : ℕ
  pub rq_ofs : ℕ
  pub len : ℕ

-- The calls of `blk_dev_redirect_part` up to now, what those to come will return (success past the end
-- of the list), the sectors of the request that `blk_dev_redirect_zeroed_part` fills with zeros, from
-- where and how many, and `state_sectors_image_written`.
pub record Io : Type 0 where
  pub parts : List Part
  pub answers : List Status
  pub zeroed : List (ℕ × ℕ)
  pub state_sectors_image_written : ℕ

pub answer : List Status → Status × List Status
answer [] = (success, [])
answer (s ∷ answers) = (s, answers)

pub redirect_part : Part → Io → Status × Io
redirect_part part io =
    let (res, answers) = answer io.answers in
    (res, record io { parts = io.parts ++ part ∷ []; answers = answers })

-- The statistic that a write keeps.
pub count_written : Direction → ℕ → Io → Io
count_written read len io = io
count_written write len io = record io {
  state_sectors_image_written = io.state_sectors_image_written + len;
}

-- The loop over the ranges of a block of `snapstore_redirect_read` and `snapstore_redirect_write`:
-- for a file each range is on the store's device, for several devices each names its own.
pub redirect_ranges : Direction → ℕ → ℕ → List (ℕ × Range) → ℕ → ℕ → Io → Status × Io
redirect_ranges dir rq_ofs rq_count [] current_ofs block_ofs io = (success, io)
redirect_ranges dir rq_ofs rq_count ((dev, rg) ∷ rgs) current_ofs block_ofs io =
    let len : ℕ = min (rg.cnt - block_ofs) (rq_count - current_ofs) in
    let part : Part = record {
      direction = dir;
      blk_dev = dev;
      pos = rg.ofs + block_ofs;
      rq_ofs = rq_ofs + current_ofs;
      len = len;
    } in
    let r = redirect_part part io in
    let next =
      redirect_ranges dir rq_ofs rq_count rgs (current_ofs + len) 0 (count_written dir len r.1) in
    let skip = redirect_ranges dir rq_ofs rq_count rgs current_ofs (block_ofs - rg.cnt) io in
    if leb rq_count current_ofs
    then (success, io)
    else if ltb block_ofs rg.cnt
    then (if is_success r.0 then next else r)
    else skip

pub on_device : ℕ → List Range → List (ℕ × Range)
on_device dev [] = []
on_device dev (rg ∷ rgs) = (dev, rg) ∷ on_device dev rgs

-- A store with the descriptor of a block.
pub data Target : Type 0 where
  file : ℕ → List Range → Target
  multidev : List (ℕ × Range) → Target
  no_store : Target

-- `snapstore_redirect_read` and `snapstore_redirect_write`, for stores on devices
pub redirect : ℕ → Direction → Target → ℕ → ℕ → ℕ → Io → Status × Io
redirect blk dir (file dev rgs) target_pos rq_ofs rq_count io =
    redirect_ranges dir rq_ofs rq_count (on_device dev rgs) 0 (target_pos % blk) io
redirect blk dir (multidev rgs) target_pos rq_ofs rq_count io =
    redirect_ranges dir rq_ofs rq_count rgs 0 (target_pos % blk) io
redirect blk dir no_store target_pos rq_ofs rq_count io = (einval, io)
