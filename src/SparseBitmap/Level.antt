-- ===== src/SparseBitmap/Level.antt =====
-- The well-formed blocks of sparse_bitmap.c, and what a set and a clear promise at any level.
use veeamsnap.Prelude.{
  ℕ, zero, suc, ◌%◌, ◌≡◌, ◌≢◌, refl, Bool, true, false, List, All, length, count, if◌then◌else◌,
  ◌==◌, ◌&&◌, is_success, success, enomem, ealready,
}
use veeamsnap.SparseBitmap.{Ptr, Leaf, Block, Outcome, inx_at, st_full, st_empty}

-- Two indices fall on one bit of a block of level l.
abbrev pub same : ℕ → ℕ → ℕ → Bool
same zero i j = i % 64 == j % 64
same (suc l) i j = inx_at (suc l) i == inx_at (suc l) j && same l i j

abbrev pub in_use {ℓ} : {A : Type ℓ} → Ptr A → Bool
in_use Ptr.empty = false
in_use Ptr.full = true
in_use (Ptr.at a) = true

abbrev pub is_full {ℓ} : {A : Type ℓ} → Ptr A → Bool
is_full Ptr.empty = false
is_full Ptr.full = true
is_full (Ptr.at a) = false

pub is_full-in_use {ℓ} : {A : Type ℓ} (q : Ptr A) → is_full q ≡ true → in_use q ≡ true
is_full-in_use Ptr.empty h = h
is_full-in_use Ptr.full h = h
is_full-in_use (Ptr.at a) h = refl

abbrev pub On {ℓ κ} : {A : Type ℓ} → (A → Type κ) → Ptr A → Type κ
On P Ptr.empty = Unit
On P Ptr.full = Unit
On P (Ptr.at a) = P a

abbrev pub is_one : Bool → Bool
is_one b = b

-- The word has 64 bits, and `fill_count` counts those that are set.
pub record LeafIsValid (b : Leaf) : Type 0 where
  pub width : length b.bit_block ≡ 64
  pub filled : b.fill_count ≡ count is_one b.bit_block

-- 64 slots; `fill_count` counts those in use, and `cnt_full` those that are full.
pub record SlotsIsValid {B : Type 0} (P : B → Type 0) (fill_count cnt_full : ℕ) (arr : List (Ptr B))
    : Type 0 where
  pub width : length arr ≡ 64
  pub filled : fill_count ≡ count in_use arr
  pub fulls : cnt_full ≡ count is_full arr
  pub children : All (On P) arr

abbrev pub BranchIsValid : {B : Type 0} → (B → Type 0) → ℕ → ℕ → Ptr (List (Ptr B)) → Type 0
BranchIsValid P fill full Ptr.empty = (fill ≡ 0) × (full ≡ 0)
BranchIsValid P fill full Ptr.full = (fill ≡ 64) × (full ≡ 64)
BranchIsValid P fill full (Ptr.at arr) = SlotsIsValid P fill full arr

abbrev pub BlockIsValid : (l : ℕ) → Block l → Type 0
BlockIsValid zero b = LeafIsValid b
BlockIsValid (suc l) b = BranchIsValid (BlockIsValid l) b.fill_count b.cnt_full b.blocks_array

module _ {B : Type 0} (Valid : B → Type 0) (get : B → ℕ → Bool) (hit : ℕ → Bool) where
  -- A set, whatever the allocator answers: on success the bit that was clear is set and no other
  -- changes, on EALREADY it was set, and on ENOMEM no bit changes.
  pub record Sets (index : ℕ) (b : B) (o : Outcome B) : Type 0 where
    pub valid : Valid o.block
    pub bits :
        (j : ℕ)
        → get o.block j ≡ (if is_success o.res then (if hit j then true else get b j) else get b j)
    pub was_clear : o.res ≡ success → get b index ≡ false
    pub was_set : o.res ≡ ealready → get b index ≡ true
    pub all_set : o.st ≡ st_full → (j : ℕ) → get o.block j ≡ true
    pub codes : o.res ≢ success → o.res ≢ ealready → o.res ≡ enomem

  -- A clear that does not run out of memory.
  pub record Clears (index : ℕ) (b : B) (o : Outcome B) : Type 0 where
    pub valid : Valid o.block
    pub bits : (j : ℕ) → get o.block j ≡ (if hit j then false else get b j)
    pub was_clear : o.res ≡ ealready → get b index ≡ false
    pub all_clear : o.st ≡ st_empty → (j : ℕ) → get o.block j ≡ false
    pub codes : o.res ≢ success → o.res ≡ ealready
