-- ===== src/DeferIo/Tests.antt =====
-- Runs of defer_io.c.
use mathlib.Core.List.{map}
use veeamsnap.Prelude.{
  ◌≡◌, ◌⊎◌, ◌++◌, refl, Bool, true, false, Option, none, List, [], ◌∷◌, All, success, replicate,
  arith,
}
use veeamsnap.PageArray.{PageArray, pointers_in_page, page_count_calc}
use veeamsnap.BlkDescrArray.{Group, group_count_of}
use veeamsnap.BlkDescrArray.Laws.{IsValid}
use veeamsnap.BlkDescrArray.Life.{fresh, fresh_lem}
use veeamsnap.Snapstore.{Target, multidev, no_store}
use veeamsnap.SnapstoreDevice.{Device, CopyRequest}
use veeamsnap.DeferIo.{OriginalRequest, block_copied, bio_sent, DeferIo, Turn, round, make_request}
use veeamsnap.DeferIo.Steps.{Saved}
use veeamsnap.DeferIo.Saved.{round-Saved}
use veeamsnap.DeferIo.Routing.{as_queued, is_deferred, Queued, Sent, make_request_lem}

abbrev block : Target
block = multidev ((3, record { ofs = 100; cnt = 8 }) ∷ [])

abbrev pages : PageArray (Option (Group Target))
pages = record { pg = replicate pointers_in_page none ∷ [] }

-- One free block of 8 sectors, and no block of the device stored.
abbrev device : Device
device = record {
  store_block_map = fresh no_store 0 20 pages;
  pool = record {
    head = record { capacity = 4; blocks = block ∷ [] } ∷ [];
    blocks_cnt = 1;
    total_cnt = 1;
    take_cnt = 0;
  };
  overflowed = 0;
  corrupted = false;
  err_code = success;
  req_failed_cnt = 0;
}

-- A write of three sectors, and a read.
abbrev writing : OriginalRequest
writing = record {
  bio = 1;
  is_write_bio = true;
  sect = record { ofs = 4; cnt = 3 };
  tracked = true;
}

abbrev reading : OriginalRequest
reading = record {
  bio = 2;
  is_write_bio = false;
  sect = record { ofs = 9; cnt = 1 };
  tracked = true;
}

abbrev queued : DeferIo
queued = record {
  dio_queue = writing ∷ reading ∷ [];
  queue_active = true;
  snapstore_device = device;
  tracker = record { cbt_map = none; capacity = 160; captured = true };
  sent = [];
  trace = [];
  state_bios_received = 2;
  state_bios_processed = 0;
  state_sectors_received = 4;
  state_sectors_processed = 0;
}

abbrev turn : Turn
turn = record { stops = []; read_res = success; store_res = success; mem = [] }

map-IsValid : IsValid device.store_block_map
unfolding group_count_of page_count_calc
map-IsValid = (fresh_lem no_store 0 20 pages (omega arith) (omega arith) refl).0

round-Saved_example :
    let d' = round 8 turn queued in
    (taken : List OriginalRequest) × (dios : CopyRequest) × (d'.sent ≡ taken)
    × (taken ++ d'.dio_queue ≡ writing ∷ reading ∷ [])
    × (d'.trace ≡ map block_copied dios ++ map bio_sent taken)
    × ((d'.snapstore_device.corrupted ≡ true)
        ⊎ ((◌≡◌ {A = Bool} true false) ⊎ All (Saved 8 0 device dios) taken))
round-Saved_example = round-Saved 8 0 turn queued refl map-IsValid refl

make_request_lem_example :
    let d' = make_request false writing [] queued in
    ((is_deferred false [] queued ≡ true) × Queued (as_queued writing queued) queued d')
    ⊎ ((is_deferred false [] queued ≡ false) × Sent (as_queued writing queued) queued d')
make_request_lem_example = make_request_lem false writing [] queued
