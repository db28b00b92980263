-- ===== src/SnapstoreDevice/Tests.antt =====
-- Runs of snapstore_device.c.
use veeamsnap.Prelude.{
  ℕ, ◌≤◌, ◌≡◌, ◌⊎◌, ◌++◌, refl, ap, true, false, not, Option, none, some, [], ◌∷◌, replicate,
  success, eio, is_success, arith,
}
use veeamsnap.Range.{Range, run}
use veeamsnap.PageArray.{PageArray, pointers_in_page, page_count_calc, ptr_get, ptr_set, fill}
use veeamsnap.BlkDescrArray.{
  Group, Header, get, set_value, group_count_of, read_slot, write_slot, write_group, new_group,
}
use veeamsnap.BlkDescrArray.Laws.{get-set_value}
use veeamsnap.BlkDescrArray.Life.{fresh, fresh_lem, IsNewOrNone}
use veeamsnap.BlkDescrPool.{pool_take, took, pool_at_from}
use veeamsnap.Snapstore.{Target, multidev, no_store, Io}
use veeamsnap.Snapstore.Sectors.{device_side, request_side}
use veeamsnap.SnapstoreDevice.{
  Device, Prep, is_block_stored, prepare_requests, prepare_loop, add_request, get_empty_block,
  store_descr, add_dio, copy_on_write, device_read,
}
use veeamsnap.SnapstoreDevice.Prepare.{
  Prepared, in_range, prepare_requests_lem, copy_on_write_unread,
}
use veeamsnap.SnapstoreDevice.Source.{sector_source, map_run, readable}
use veeamsnap.SnapstoreDevice.Image.{device_read_lem}

abbrev block : Target
block = multidev ((3, record { ofs = 100; cnt = 3 }) ∷ (4, record { ofs = 200; cnt = 5 }) ∷ [])

-- One free block of 8 sectors, and no block of the device stored.
abbrev device : Header Target → Device
device map = record {
  store_block_map = map;
  pool = record {
    head = record { capacity = 4; blocks = block ∷ [] } ∷ [];
    blocks_cnt = 1;
    total_cnt = 1;
    take_cnt = 0;
  };
  overflowed = 0;
  corrupted = false;
  err_code = success;
  req_failed_cnt = 0;
}

abbrev pages : PageArray (Option (Group Target))
pages = record { pg = replicate pointers_in_page none ∷ [] }

-- The blocks 0 to 20 of a device.
abbrev map : Header Target
map = fresh no_store 0 20 pages

map_is_new : IsNewOrNone no_store 0 20 (some map)
unfolding group_count_of page_count_calc
map_is_new = fresh_lem no_store 0 20 pages (omega arith) (omega arith) refl

-- The sectors 4 to 6, of the block 0.
abbrev range : Range
range = record { ofs = 4; cnt = 3 }

abbrev prep : Prep
prep = record { dev = device map; dio_copy_req = none; mem = [] }

prepare_requests_lem_example :
    let r = prepare_requests 8 range prep in
    Prepared 8 range 0 (device map) r.0 r.1.dev × (r.1.dev.corrupted ≡ not (is_success r.0))
prepare_requests_lem_example = prepare_requests_lem 8 0 range prep map_is_new.0 refl

-- The block 0 is stored.
abbrev stored : Header Target
stored = (set_value no_store map 0 block []).1

stored-readable : (i : ℕ) → i ≤ 1 → readable 8 (get no_store stored i) ≡ true
stored-readable i h =
    ground (arith, get-set_value no_store map 0 i block [] map_is_new.0, map_is_new.1 i, h)

abbrev io : Io
io = record { parts = []; answers = []; zeroed = []; state_sectors_image_written = 0 }

-- A range over the end of the block 0.
abbrev across : Range
across = record { ofs = 5; cnt = 6 }

device_read_lem_example :
    let r = device_read 8 9 none across (device stored) io in
    (r.0 ≡ success)
    × (r.1 ≡ device stored)
    × (device_side r.2.parts ≡ device_side [] ++ map_run (sector_source 8 9 stored) 5 6)
    × (request_side r.2.parts ≡ request_side [] ++ run 0 6)
device_read_lem_example =
    device_read_lem 8 9 across (device stored) io (omega arith) (omega arith) (omega arith) refl
      (λ i lo hi. stored-readable i hi) refl

status : (prepare_requests 8 range prep).0 ≡ success
unfolding prepare_requests prepare_loop add_request get_empty_block store_descr add_dio
    is_block_stored pool_take took pool_at_from get read_slot set_value write_slot write_group
    new_group ptr_get ptr_set fill group_count_of
status = refl

request : (prepare_requests 8 range prep).1.dio_copy_req ≡ some ((0, block) ∷ [])
unfolding prepare_requests prepare_loop add_request get_empty_block store_descr add_dio
    is_block_stored pool_take took pool_at_from get read_slot set_value write_slot write_group
    new_group ptr_get ptr_set fill group_count_of
request = refl

abbrev after : Prep
after = (prepare_requests 8 range prep).1

copy_on_write_unread_example :
    let r = copy_on_write 8 eio success range (device map) [] in
    (r.0 ≡ eio)
    × (r.1.corrupted ≡ false)
    × ((in_range 8 range 0 ≡ false) ⊎ (is_block_stored r.1 0 ≡ true))
copy_on_write_unread_example =
    copy_on_write_unread 8 0 eio success range (device map) [] after ((0, block) ∷ []) map_is_new.0
      refl (ap (λ s. (s, after)) status) request refl
