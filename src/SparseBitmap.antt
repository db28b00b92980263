-- ===== src/SparseBitmap.antt =====
-- source/sparse_bitmap.c and source/sparse_bitmap.h on a 64-bit build: the tree of blocks and the
-- operations that set, clear and read one bit. The children prove what they do.
-- A block's level is the index of its type: a child is always created at `block->level - 1`.
pub mod Level
pub mod SetLaws
pub mod ClearLaws
pub mod Address
pub mod Bitmap
use veeamsnap.Prelude.{
  ℕ, zero, suc, ◌+◌, ◌-◌, ◌*◌, ◌/◌, ◌%◌, ◌^◌, Bool, true, false, Option, none, some, List, [], ◌∷◌,
  if◌then◌else◌, ◌==◌, get_or, set, replicate, Status, success, enomem, ealready, Memory, alloc,
}

-- SPARSE_BITMAP_BLOCK_SIZE
abbrev pub block_size : ℕ
block_size = 64

-- `++` and `--` on a `char`, as a pattern of 8 bits.
abbrev pub inc8 : ℕ → ℕ
inc8 n = (n + 1) % 256

abbrev pub dec8 : ℕ → ℕ
dec8 n = (n + 255) % 256

-- BLOCK_EMPTY, BLOCK_FULL, or the address of a structure.
pub data Ptr {ℓ} (A : Type ℓ) : Type ℓ where
  empty full : Ptr A
  at : A → Ptr A

-- A `sparse_block_t` of level 0. The bits of `bit_block` are listed from the lowest on.
pub record Leaf : Type 0 where
  pub bit_block : List Bool
  pub fill_count : ℕ
  pub cnt_full : ℕ

-- A `sparse_block_t` of a higher level, over the blocks of the level below.
pub record Branch (B : Type 0) : Type 0 where
  pub blocks_array : Ptr (List (Ptr B))
  pub fill_count : ℕ
  pub cnt_full : ℕ

abbrev pub Block : ℕ → Type 0
Block zero = Leaf
Block (suc l) = Branch (Block l)

-- BLK_ST_EMPTY, BLK_ST_USE, BLK_ST_FULL
pub data BlkSt : Type 0 where
  st_empty st_use st_full : BlkSt

-- What a call on a block gives: its result, `*p_blk_st`, the block and the allocator afterwards.
pub record Outcome (B : Type 0) : Type 0 where
  pub res : Status
  pub st : BlkSt
  pub block : B
  pub mem : Memory

-- `index >> (SPARSE_BITMAP_BLOCK_SIZE_DEGREE * level) & SPARSE_BITMAP_BLOCK_SIZE_MASK`
abbrev pub inx_at : ℕ → ℕ → ℕ
inx_at level index = index / 2 ^ (6 * level) % 64

-- `_sparse_block_init` with BLOCK_FULL or BLOCK_EMPTY. At level 0 `blocks_array` is the bit word.
pub block_init : (l : ℕ) → Bool → Block l
block_init zero all = record {
  bit_block = replicate block_size all;
  fill_count = if all then block_size else 0;
  cnt_full = if all then block_size else 0;
}
block_init (suc l) all = record {
  blocks_array = if all then Ptr.full else Ptr.empty;
  fill_count = if all then block_size else 0;
  cnt_full = if all then block_size else 0;
}

-- `_sparse_block_create`
abbrev pub block_create : (l : ℕ) → Bool → Memory → Option (Block l) × Memory
block_create l all mem =
    let (granted, mem') = alloc mem in (if granted then some (block_init l all) else none, mem')

-- `_sparse_block_array_new`: `memset` with 0xFF or 0x00 makes 64 full or 64 empty pointers.
abbrev pub block_array_new : {B : Type 0} → Bool → Memory → Option (List (Ptr B)) × Memory
block_array_new all mem =
    let (granted, mem') = alloc mem in
    (
      if granted then some (replicate block_size (if all then Ptr.full else Ptr.empty)) else none,
      mem',
    )

-- `_sparse_block_set_leaf`
pub set_leaf : Leaf → ℕ → Memory → Outcome Leaf
set_leaf b index mem =
    let inx : ℕ = index % 64 in
    let is_set : Bool = get_or b.bit_block inx false in
    let b' : Leaf =
      if is_set
      then b
      else record b { bit_block = set b.bit_block inx true; fill_count = inc8 b.fill_count } in
    record {
      res = if is_set then ealready else success;
      st = if b'.fill_count == block_size then st_full else st_use;
      block = b';
      mem = mem;
    }

-- `_sparse_block_clear_leaf`
pub clear_leaf : Leaf → ℕ → Memory → Outcome Leaf
clear_leaf b index mem =
    let inx : ℕ = index % 64 in
    let is_set : Bool = get_or b.bit_block inx false in
    let b' : Leaf =
      if is_set
      then record b { bit_block = set b.bit_block inx false; fill_count = dec8 b.fill_count }
      else b in
    record {
      res = if is_set then success else ealready;
      st = if b'.fill_count == 0 then st_empty else st_use;
      block = b';
      mem = mem;
    }

-- The branch functions, over the functions of the level below.
module _ {B : Type 0} (create : Bool → Memory → Option B × Memory)
    (sub : B → ℕ → Memory → Outcome B) (inx : ℕ) (index : ℕ) where
  -- The end of `_sparse_block_set_branch`: the call on the child, and its promotion to BLOCK_FULL.
  pub set_child : Branch B → List (Ptr B) → B → Memory → Outcome (Branch B)
  set_child b arr child mem = elim o.res [
    | success ↦ elim o.st [
      | st_full ↦
          if inc8 b.cnt_full == block_size
          then record {
            res = success;
            st = st_full;
            block = record b { blocks_array = Ptr.full; cnt_full = inc8 b.cnt_full };
            mem = o.mem;
          }
          else record {
            res = success;
            st = st_use;
            block = record b {
              blocks_array = Ptr.at (set arr inx Ptr.full);
              cnt_full = inc8 b.cnt_full;
            };
            mem = o.mem;
          }
      | _ ↦ kept
    ]
    | _ ↦ kept
  ]
    where
      o : Outcome B
      o = sub child index mem

      kept : Outcome (Branch B)
      kept = record {
        res = o.res;
        st = st_use;
        block = record b { blocks_array = Ptr.at (set arr inx (Ptr.at o.block)) };
        mem = o.mem;
      }

  -- The middle: the slot of the array that `index` falls into.
  pub set_slot : Branch B → List (Ptr B) → Ptr B → Memory → Outcome (Branch B)
  set_slot b arr Ptr.full mem = record {
    res = ealready;
    st = st_use;
    block = record b { blocks_array = Ptr.at arr };
    mem = mem;
  }
  set_slot b arr Ptr.empty mem =
      let (made, mem') = create false mem in
      elim made [
        | none ↦ record {
          res = enomem;
          st = st_use;
          block = record b { blocks_array = Ptr.at (set arr inx Ptr.empty) };
          mem = mem';
        }
        | some child ↦
            set_child (record b { fill_count = inc8 b.fill_count }) (set arr inx (Ptr.at child))
              child mem'
      ]
  set_slot b arr (Ptr.at child) mem = set_child b arr child mem

  -- The start of `_sparse_block_set_branch`: the array of the block.
  pub set_array : Branch B → Ptr (List (Ptr B)) → Memory → Outcome (Branch B)
  set_array b Ptr.full mem = record { res = ealready; st = st_use; block = b; mem = mem }
  set_array b Ptr.empty mem =
      let (made, mem') = block_array_new false mem in
      elim made [
        | none ↦ record { res = enomem; st = st_use; block = b; mem = mem' }
        | some arr ↦ set_slot b arr (get_or arr inx Ptr.empty) mem'
      ]
  set_array b (Ptr.at arr) mem = set_slot b arr (get_or arr inx Ptr.empty) mem

  -- The end of `_sparse_block_clear_branch`.
  pub clear_child : Branch B → List (Ptr B) → B → Memory → Outcome (Branch B)
  clear_child b arr child mem = elim o.res [
    | success ↦ elim o.st [
      | st_empty ↦
          if dec8 b.fill_count == 0
          then record {
            res = success;
            st = st_empty;
            block = record b { blocks_array = Ptr.empty; fill_count = dec8 b.fill_count };
            mem = o.mem;
          }
          else record {
            res = success;
            st = st_use;
            block = record b {
              blocks_array = Ptr.at (set arr inx Ptr.empty);
              fill_count = dec8 b.fill_count;
            };
            mem = o.mem;
          }
      | _ ↦ kept
    ]
    | _ ↦ kept
  ]
    where
      o : Outcome B
      o = sub child index mem

      kept : Outcome (Branch B)
      kept = record {
        res = o.res;
        st = st_use;
        block = record b { blocks_array = Ptr.at (set arr inx (Ptr.at o.block)) };
        mem = o.mem;
      }

  -- A failed `_sparse_block_create` has already overwritten the slot by NULL, which is BLOCK_EMPTY.
  pub clear_slot : Branch B → List (Ptr B) → Ptr B → Memory → Outcome (Branch B)
  clear_slot b arr Ptr.empty mem = record {
    res = success;
    st = st_use;
    block = record b { blocks_array = Ptr.at arr };
    mem = mem;
  }
  clear_slot b arr Ptr.full mem =
      let (made, mem') = create true mem in
      elim made [
        | none ↦ record {
          res = enomem;
          st = st_use;
          block = record b { blocks_array = Ptr.at (set arr inx Ptr.empty) };
          mem = mem';
        }
        | some child ↦
            clear_child (record b { cnt_full = dec8 b.cnt_full }) (set arr inx (Ptr.at child)) child
              mem'
      ]
  clear_slot b arr (Ptr.at child) mem = clear_child b arr child mem

  pub clear_array : Branch B → Ptr (List (Ptr B)) → Memory → Outcome (Branch B)
  clear_array b Ptr.empty mem = record { res = success; st = st_empty; block = b; mem = mem }
  clear_array b Ptr.full mem =
      let (made, mem') = block_array_new true mem in
      elim made [
        | none ↦ record { res = enomem; st = st_use; block = b; mem = mem' }
        | some arr ↦ clear_slot b arr (get_or arr inx Ptr.empty) mem'
      ]
  clear_array b (Ptr.at arr) mem = clear_slot b arr (get_or arr inx Ptr.empty) mem

-- `_sparse_block_set`
pub block_set : (l : ℕ) → Block l → ℕ → Memory → Outcome (Block l)
block_set zero b index mem = set_leaf b index mem
block_set (suc l) b index mem =
    set_array (block_create l) (block_set l) (inx_at (suc l) index) index b b.blocks_array mem

-- `_sparse_block_clear`
pub block_clear : (l : ℕ) → Block l → ℕ → Memory → Outcome (Block l)
block_clear zero b index mem = clear_leaf b index mem
block_clear (suc l) b index mem =
    clear_array (block_create l) (block_clear l) (inx_at (suc l) index) index b b.blocks_array mem

module _ {B : Type 0} (sub_get : B → ℕ → Bool) (index : ℕ) where
  pub get_slot : Ptr B → Bool
  get_slot Ptr.full = true
  get_slot Ptr.empty = false
  get_slot (Ptr.at child) = sub_get child index

  pub get_array : ℕ → Ptr (List (Ptr B)) → Bool
  get_array inx Ptr.full = true
  get_array inx Ptr.empty = false
  get_array inx (Ptr.at arr) = get_slot (get_or arr inx Ptr.empty)

-- `_sparse_block_get`
pub block_get : (l : ℕ) → Block l → ℕ → Bool
block_get zero b index = get_or b.bit_block (index % 64) false
block_get (suc l) b index = get_array (block_get l) index (inx_at (suc l) index) b.blocks_array
