-- ===== src/Snapstore/Tests.antt =====
-- Runs of snapstore.c.
use veeamsnap.Prelude.{
  ◌+◌, ◌%◌, ◌≤◌, ◌≡◌, refl, some, List, [], ◌∷◌, ◌++◌, take, drop, Status, success, arith,
}
use veeamsnap.Range.{Range, run}
use veeamsnap.BlkDescrPool.{Pool}
use veeamsnap.BlkDescrPool.Laws.{IsValid, descriptors}
use veeamsnap.Snapstore.{IoctlRange, Adding, add_file, write, Io, Target, file, redirect, on_device}
use veeamsnap.Snapstore.Pieces.{block_sectors, Lays}
use veeamsnap.Snapstore.AddFile.{asked, add_file_lem}
use veeamsnap.Snapstore.Sectors.{block_size, device_sectors, device_side, request_side}
use veeamsnap.Snapstore.Redirect.{ranges_of, redirect-sent}

abbrev pool : Pool (List Range)
pool = record { head = []; blocks_cnt = 0; total_cnt = 0; take_cnt = 0 }

pool-IsValid : IsValid 0 pool
pool-IsValid = record { total_is = refl; taken = omega arith; elements = refl }

-- Two ranges of 3 and 6 sectors, in blocks of 4.
abbrev first : IoctlRange
first = record { left = 5120; right = 6656 }

abbrev second : IoctlRange
second = record { left = 51200; right = 54272 }

add_file_lem_example :
    (r : Status × Adding) × (add_file 4 8 (first ∷ second ∷ []) pool [] ≡ some r)
    × Lays 4 (block_sectors (descriptors pool.head) ++ asked (first ∷ second ∷ [])) r
add_file_lem_example = add_file_lem 4 8 first (second ∷ []) pool [] (omega arith) pool-IsValid tt

-- A block of two ranges on the device 3.
abbrev target : Target
target = file 3 (record { ofs = 100; cnt = 3 } ∷ record { ofs = 200; cnt = 5 } ∷ [])

abbrev io : Io
io = record { parts = []; answers = []; zeroed = []; state_sectors_image_written = 0 }

fits : 18 % 8 + 5 ≤ block_size (ranges_of target)
unfolding on_device
fits = omega arith

redirect-sent_example :
    let r = redirect 8 write target 18 40 5 io in
    (r.0 ≡ success)
    × (device_side r.1.parts
        ≡ device_side [] ++ take 5 (drop (18 % 8) (device_sectors (ranges_of target))))
    × (request_side r.1.parts ≡ request_side [] ++ run 40 5)
    × (r.1.answers ≡ [])
redirect-sent_example = redirect-sent 8 write target 18 40 5 io refl refl fits
