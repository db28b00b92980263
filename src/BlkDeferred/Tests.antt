-- ===== src/BlkDeferred/Tests.antt =====
-- Runs of blk_deferred.c on pages of eight sectors.
use veeamsnap.Prelude.{
  ℕ, ◌+◌, ◌≤◌, ◌≡◌, refl, true, false, some, List, [], ◌∷◌, success, eio, get_elem?, get_or, take,
  arith,
}
use veeamsnap.Range.{sectors}
use veeamsnap.BlkDeferred.{
  Transfer, segment, Bios, Deferred, Request, request_new, request_add, waiting_skip,
  complete_steps, run_steps, complete, request_wait, submit_pages, read_original, store_file,
}
use veeamsnap.BlkDeferred.Submit.{submit_pages_lem}
use veeamsnap.BlkDeferred.Complete.{complete_all, request_wait-complete_all, request_wait_early}
use veeamsnap.BlkDeferred.Segments.{fill, spill}
use veeamsnap.BlkDeferred.Copy.{read_original-store_file}

-- The first bio is refused twice, and its second page does not fit.
abbrev refusing : Bios
refusing = record { allocs = false ∷ false ∷ []; adds = true ∷ false ∷ []; sent = [] }

submit_pages_lem_example :
    (n : ℕ) × (io' : Bios) × (submit_pages 8 4 8 100 60 refusing ≡ some (n, io'))
    × (n ≤ 60)
    × (io'.sent ≡ segment 100 4 n)
submit_pages_lem_example = submit_pages_lem 8 4 8 100 60 refusing (omega arith) (omega arith)

abbrev calm : Bios
calm = record { allocs = []; adds = []; sent = [] }

-- The block 1 of two pages, stored in two ranges.
abbrev block : Deferred
block = record {
  blk_index = 1;
  descr = record { ofs = 100; cnt = 3 } ∷ record { ofs = 50; cnt = 13 } ∷ [];
  sect = record { ofs = 16; cnt = 16 };
  pg_cnt = 2;
}

abbrev request : Request
request = request_add request_new block

abbrev original : ℕ → ℕ
original s = s + 1000

abbrev zeros : ℕ → ℕ
zeros s = 0

read_original-store_file_example :
    (rs : List Transfer) × (io1 : Bios) × (ws : List Transfer) × (io2 : Bios) × (read_original 8
        request calm
      ≡ some (success, rs, io1))
    × (store_file 8 (block ∷ []) io1 ≡ some (ws, io2))
    × (t : Transfer) × (u : Transfer) × (get_elem? rs 0 ≡ some t)
    × (get_elem? ws 0 ≡ some u)
    × (spill u (fill t original zeros) zeros (get_or (sectors block.descr) 3 0) ≡ 1019)
unfolding request_add
read_original-store_file_example =
    read_original-store_file 8 request calm 0 3 block original zeros zeros (omega arith)
      ((omega arith, omega arith, refl, omega arith, omega arith), tt) (refl, refl) refl
      (omega arith)

request_wait-complete_all_example :
    request_wait true (complete_all ((6, success) ∷ (10, eio) ∷ []) (waiting_skip request))
    ≡ some eio
unfolding request_add
request_wait-complete_all_example =
    request_wait-complete_all true ((6, success) ∷ (10, eio) ∷ []) request (omega arith)
      (omega arith) (omega arith)

request_wait_early_example :
    let before = complete_all ((6, success) ∷ []) (waiting_skip request) in
    (request_wait false (run_steps (take 1 (complete_steps 10 eio)) before) ≡ some success)
    × (request_wait false (complete 10 eio before) ≡ some eio)
unfolding request_add
request_wait_early_example =
    request_wait_early ((6, success) ∷ []) 10 eio request (omega arith) (omega arith) (omega arith)
      refl refl
