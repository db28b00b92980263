-- ===== src/BlkDescrPool/Tests.antt =====
-- Runs of blk_descr_pool.c.
use veeamsnap.Prelude.{ℕ, ◌+◌, ◌≡◌, refl, [], ◌∷◌, ltb, if◌then◌else◌, length, get_elem?, arith}
use veeamsnap.BlkDescrPool.{Pool, pool_take}
use veeamsnap.BlkDescrPool.Laws.{IsValid, descriptors, pool_take_lem}

-- Two elements of capacity 2, the second with room; one descriptor was taken.
abbrev pool : Pool ℕ
pool = record {
  head =
      record { capacity = 2; blocks = 5 ∷ 6 ∷ [] } ∷ record { capacity = 2; blocks = 7 ∷ [] } ∷ [];
  blocks_cnt = 2;
  total_cnt = 3;
  take_cnt = 1;
}

pool-IsValid : IsValid 0 pool
pool-IsValid = record { total_is = refl; taken = omega arith; elements = refl }

pool_take_lem_example :
    let r = pool_take pool in
    IsValid 0 r.1
    × (r.0 ≡ get_elem? (descriptors pool.head) 1)
    × (r.1.head ≡ pool.head)
    × (r.1.take_cnt ≡ (if ltb 1 (length (descriptors pool.head)) then 1 + 1 else 1))
pool_take_lem_example = pool_take_lem 0 pool pool-IsValid
