-- ===== src/SparseBitmap/Bitmap/Tests.antt =====
-- Runs of the sparse bitmap of sparse_bitmap.c, and its theorems at concrete inputs.
use veeamsnap.Prelude.{
  ℕ, ◌+◌, ◌≡◌, refl, true, false, some, [], ◌∷◌, success, ealready, enomem, arith, replicate, ◌/◌,
  ◌^◌, ◌≤◌, ◌⊎◌, if◌then◌else◌, is_success, ◌&&◌, ◌==◌, All-replicate,
}
use veeamsnap.SparseBitmap.{
  Ptr, Block, block_init, block_set, block_clear, block_get, inx_at, set_array, set_slot, set_child,
  set_leaf, clear_array, clear_slot, clear_child, clear_leaf,
}
use veeamsnap.SparseBitmap.Level.{On, LeafIsValid}
use veeamsnap.SparseBitmap.ClearLaws.{block_clear_enomem}
use veeamsnap.SparseBitmap.Address.{capacity}
use veeamsnap.SparseBitmap.Bitmap.{Bitmap, create, set_bit, get_bit, calc_level, calc_level_loop}
use veeamsnap.SparseBitmap.Bitmap.Laws.{
  IsValid, blank, blank-IsValid, calc_level-total, set_bit-result, set_bit-get_bit,
  clear_bit-get_bit, set_bit_aliases,
}

-- 4096 sectors from sector 100 on: a root over 64 leaves.
abbrev window : Bitmap
window = blank 100 4096 1

window-IsValid : IsValid window
window-IsValid = blank-IsValid 100 4096 1 (omega arith) (omega arith)

levels :
    (calc_level 64 ≡ some 0)
    × (calc_level 65 ≡ some 1)
    × (calc_level 4096 ≡ some 1)
    × (calc_level 4097 ≡ some 1)
unfolding calc_level calc_level_loop
levels = (refl, refl, refl, refl)

calc_level-total_example : (l : ℕ) × (calc_level 4097 ≡ some l) × (4097 / 64 ^ l ≤ 64)
calc_level-total_example = calc_level-total 4097 (omega arith)

set_bit-result_example :
    let r = set_bit window 163 true [] in
    IsValid r.1
    × ((r.0 ≡ enomem)
        ⊎ ((r.0 ≡ success) × (get_bit window 163 ≡ (success, some false)))
        ⊎ ((r.0 ≡ ealready) × (get_bit window 163 ≡ (success, some true))))
set_bit-result_example = set_bit-result window 163 [] window-IsValid (omega arith, omega arith)

set_bit-get_bit_example :
    let r = set_bit window 163 true [] in
    get_bit r.1 164
    ≡ (if is_success r.0 && 163 == 164 then (success, some true) else get_bit window 164)
set_bit-get_bit_example =
    set_bit-get_bit window 163 [] window-IsValid (omega arith, omega arith) 164
      (omega arith, omega arith)

-- The window with the bit of sector 163 set.
abbrev marked : Bitmap
marked = (set_bit window 163 true []).1

marked-IsValid : IsValid marked
marked-IsValid = set_bit-result_example.0

clear_bit-get_bit_example :
    let r = set_bit marked 163 false [] in
    IsValid r.1
    × (get_bit r.1 163 ≡ (if 163 == 163 then (success, some false) else get_bit marked 163))
unfolding set_bit block_set set_array set_slot set_child set_leaf block_clear clear_array clear_slot
    clear_child clear_leaf block_init
clear_bit-get_bit_example =
    clear_bit-get_bit marked 163 [] marked-IsValid (omega arith, omega arith) 163
      (omega arith, omega arith) (λ e. cc)

set_bit_aliases_example :
    (get_bit (blank 100 4097 1) (100 + capacity 1) ≡ (success, some false))
    × (get_bit (set_bit (blank 100 4097 1) 100 true []).1 (100 + capacity 1) ≡ (success, some true))
unfolding create calc_level calc_level_loop set_bit block_set set_array set_slot set_child set_leaf
    block_init
set_bit_aliases_example = set_bit_aliases 100 4097 1 [] refl (omega arith) (omega arith) refl

-- A root whose first slot is BLOCK_FULL.
abbrev part_full : Block 1
part_full = record {
  blocks_array = Ptr.at (Ptr.full ∷ replicate 63 Ptr.empty);
  fill_count = 1;
  cnt_full = 1;
}

block_clear_enomem_example :
    let o = block_clear 1 part_full 5 (false ∷ []) in
    (o.res ≡ enomem)
    × ((j : ℕ)
        → inx_at 1 j ≡ inx_at 1 5
        → (block_get 1 part_full j ≡ true) × (block_get 1 o.block j ≡ false))
block_clear_enomem_example =
    block_clear_enomem 0 part_full 5 (false ∷ []) (Ptr.full ∷ replicate 63 Ptr.empty)
      (record {
        width = refl;
        filled = refl;
        fulls = refl;
        children = (tt, All-replicate (On LeafIsValid) 63 Ptr.empty tt);
      })
      refl refl refl
