-- ===== src/BlkDescrPool.antt =====
-- source/blk_descr_pool.c: the descriptors of a snapstore's blocks, in elements of bounded capacity,
-- given out in the order in which they were added. The mutex is held in every operation. A descriptor
-- is of any type: the file store's is a list of ranges (source/blk_descr_file.c).
pub mod Laws
mod Tests
use veeamsnap.Prelude.{
  ℕ, zero, suc, ◌+◌, ◌-◌, ◌*◌, ◌/◌, ◌<◌, Bool, true, false, ◌&&◌, Option, none, some, List, [], ◌∷◌,
  ◌++◌, ltb, leb, ◌==◌, if◌then◌else◌, length, get_elem?, Status, success, enomem, Memory, alloc,
}
use veeamsnap.Prelude.Word.{sub64}

-- `pool_el_t`: its `used_cnt` is the number of its blocks.
pub record PoolEl (D : Type 0) : Type 0 where
  pub capacity : ℕ
  pub blocks : List D

-- `blk_descr_pool_t`
pub record Pool (D : Type 0) : Type 0 where
  pub head : List (PoolEl D)
  pub blocks_cnt : ℕ
  pub total_cnt : ℕ
  pub take_cnt : ℕ

module _ {D : Type 0} where
  -- `blk_descr_pool_init`
  pub pool_init : ℕ → Pool D
  pool_init available_blocks = record {
    head = [];
    blocks_cnt = 0;
    total_cnt = available_blocks;
    take_cnt = 0;
  }

  -- The last element has room.
  pub last_has_room : List (PoolEl D) → Bool
  last_has_room [] = false
  last_has_room (el ∷ []) = if length el.blocks == el.capacity then false else true
  last_has_room (el ∷ el' ∷ els) = last_has_room (el' ∷ els)

  -- The descriptor is put behind the used ones of the last element.
  pub add_to_last : List (PoolEl D) → D → List (PoolEl D)
  add_to_last [] d = []
  add_to_last (el ∷ []) d = record el { blocks = el.blocks ++ d ∷ [] } ∷ []
  add_to_last (el ∷ el' ∷ els) d = el ∷ add_to_last (el' ∷ els) d

  -- `pool_el_alloc`; the capacity is what fits into the memory that the kernel gives.
  abbrev pub new_el : ℕ → PoolEl D
  new_el capacity = record { capacity = capacity; blocks = [] }

  -- `blk_descr_pool_alloc`, with the descriptor that `block_alloc` builds
  pub pool_alloc : ℕ → Pool D → D → Memory → Status × Pool D × Memory
  pool_alloc capacity pool d mem =
      let (granted, mem') = alloc mem in
      let grown = pool.head ++ new_el capacity ∷ [] in
      if last_has_room pool.head
      then (
        success,
        record pool { head = add_to_last pool.head d; total_cnt = pool.total_cnt + 1 },
        mem,
      )
      else if granted
      then (
        success,
        record pool {
          head = add_to_last grown d;
          blocks_cnt = pool.blocks_cnt + 1;
          total_cnt = pool.total_cnt + 1;
        },
        mem',
      )
      else (enomem, pool, mem')

  -- `__blk_descr_pool_at`
  unfoldable pub pool_at_from : List (PoolEl D) → ℕ → ℕ → Option D
  pool_at_from [] curr_inx index = none
  pool_at_from (el ∷ els) curr_inx index =
      let rest = pool_at_from els (curr_inx + length el.blocks) index in
      if leb curr_inx index && ltb index (curr_inx + length el.blocks)
      then get_elem? el.blocks (index - curr_inx)
      else rest

  unfoldable pub took : Pool D → Option D → Option D × Pool D
  took pool none = (none, pool)
  took pool (some d) = (some d, record pool { take_cnt = pool.take_cnt + 1 })

  -- `blk_descr_pool_take`
  unfoldable pub pool_take : Pool D → Option D × Pool D
  pool_take pool =
      if leb pool.total_cnt pool.take_cnt
      then (none, pool)
      else took pool (pool_at_from pool.head 0 pool.take_cnt)

  -- The loop of `blk_descr_pool_done`: the pool, and the blocks given to the clean-up.
  pub done_loop : List (PoolEl D) → Pool D → Pool D × List D
  done_loop [] pool = (record pool { head = [] }, [])
  done_loop (el ∷ els) pool =
      let rest = done_loop els (record pool {
        head = els;
        blocks_cnt = sub64 pool.blocks_cnt 1;
        total_cnt = sub64 pool.total_cnt (length el.blocks);
      }) in
      (rest.0, el.blocks ++ rest.1)

  -- `blk_descr_pool_done`
  pub pool_done : Pool D → Pool D × List D
  pool_done pool = done_loop pool.head pool

  -- `blk_descr_pool_check_halffill`, with blocks of `blk_size` sectors: the test, and `*fill_status`
  pub check_halffill : ℕ → Pool D → ℕ → Bool × ℕ
  check_halffill blk_size pool empty_limit =
      (ltb (sub64 pool.total_cnt pool.take_cnt) (empty_limit / blk_size), pool.take_cnt * blk_size)
