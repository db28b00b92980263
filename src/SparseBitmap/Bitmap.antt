-- ===== src/SparseBitmap/Bitmap.antt =====
-- The `sparsebitmap_*` functions of source/sparse_bitmap.c: a window of indices over a tree of blocks.
pub mod Laws
mod Tests
use veeamsnap.Prelude.{
  ℕ, zero, suc, ◌+◌, ◌-◌, ◌/◌, Bool, true, false, Option, none, some, ltb, leb, if◌then◌else◌, ◌||◌,
  Status, success, einval, Memory, replicate,
}
use veeamsnap.Prelude.Word.{add64}
use veeamsnap.SparseBitmap.{
  Ptr, Block, Outcome, block_size, block_init, block_set, block_clear, block_get,
}

-- `sparse_bitmap_t`
pub record Bitmap : Type 0 where
  pub start_index : ℕ
  pub length : ℕ
  pub level : ℕ
  pub sparse_block : Block level

-- The loop of `_calc_level`; the first argument bounds its rounds.
pub calc_level_loop : ℕ → ℕ → ℕ → Option ℕ
calc_level_loop zero ull level = none
calc_level_loop (suc rounds) ull level =
    let rest = calc_level_loop rounds (ull / 64) (level + 1) in
    if ltb block_size ull then rest else some level

-- `_calc_level`: a 64-bit number is shifted below 65 in at most ten rounds.
pub calc_level : ℕ → Option ℕ
calc_level ull = calc_level_loop 11 ull 0

-- `sparsebitmap_create`
pub create : ℕ → ℕ → Option Bitmap
create min_index length = elim (calc_level length) [
  | none ↦ none
  | some level ↦ some (record {
    start_index = min_index;
    length = length;
    level = level;
    sparse_block = block_init level false;
  })
]

abbrev pub is_outside : Bitmap → ℕ → Bool
is_outside bm index = ltb index bm.start_index || leb (add64 bm.start_index bm.length) index

abbrev with_block : (bm : Bitmap) → Outcome (Block bm.level) → Status × Bitmap × Memory
with_block bm o = (o.res, record bm { sparse_block = o.block }, o.mem)

-- `sparsebitmap_Set`
pub set_bit : Bitmap → ℕ → Bool → Memory → Status × Bitmap × Memory
set_bit bm index state mem =
    if is_outside bm index
    then (einval, bm, mem)
    else if state
    then with_block bm (block_set bm.level bm.sparse_block (index - bm.start_index) mem)
    else with_block bm (block_clear bm.level bm.sparse_block (index - bm.start_index) mem)

-- `sparsebitmap_Get`: `*p_state` is written on success only.
pub get_bit : Bitmap → ℕ → Status × Option Bool
get_bit bm index =
    if is_outside bm index
    then (einval, none)
    else (success, some (block_get bm.level bm.sparse_block (index - bm.start_index)))

-- `_sparse_block_free`: an array is released with the blocks below it, BLOCK_FULL is left.
pub block_free : (l : ℕ) → Block l → Block l
block_free zero b = record b { bit_block = replicate block_size false; fill_count = 0 }
block_free (suc l) b = elim b.blocks_array [
  | Ptr.at arr ↦ record { blocks_array = Ptr.empty; fill_count = 0; cnt_full = 0 }
  | _ ↦ b
]

-- `sparsebitmap_Clean`
pub clean : Bitmap → Bitmap
clean bm = record bm {
  sparse_block = block_free bm.level bm.sparse_block;
  length = 0;
  start_index = 0;
}
