-- ===== src/SparseBitmap/ClearLaws.antt =====
-- `_sparse_block_clear` of sparse_bitmap.c, at every level, where the allocator does not fail; and
-- what is lost where it does.
use veeamsnap.Prelude.{
  ℕ, zero, suc, ◌+◌, ◌%◌, ◌<◌, ◌≤◌, ◌≡◌, ◌≢◌, refl, inl, inr, Bool, true, false, Option, some, List,
  count, ◌==◌, ◌&&◌, Bool-cases, Option-cases, get_or, set, replicate, length-set, get_or-set,
  count-none, All-set, All-get_or, All-replicate, count-set, count-le, count_mono, enomem, Memory,
  alloc, arith,
}
use veeamsnap.SparseBitmap.{
  Ptr, Leaf, Branch, Block, Outcome, block_size, inx_at, st_empty, dec8, block_init, block_create,
  clear_leaf, clear_child, clear_slot, clear_array, block_clear, block_get, get_slot, get_array,
}
use veeamsnap.SparseBitmap.Level.{
  same, in_use, is_full, is_full-in_use, On, is_one, LeafIsValid, SlotsIsValid, BranchIsValid,
  BlockIsValid, Clears,
}

clear_leaf-Clears :
    (b : Leaf) (index : ℕ) (mem : Memory)
    → LeafIsValid b
    → Clears LeafIsValid (block_get 0) (same 0 index) index b (clear_leaf b index mem)
unfolding clear_leaf block_get
clear_leaf-Clears b index mem v = record {
  valid = record {
    width = ground (arith, v, length-set bits inx false);
    filled = ground (
      arith,
      v,
      count-set is_one bits inx false false,
      count-le is_one bits,
      count-le is_one (set bits inx false),
      length-set bits inx false,
    );
  };
  bits = λ j. ground (arith, v, get_or-set bits inx (j % 64) false false);
  was_clear = λ h. ground arith;
  all_clear = λ h j. ground (
    arith,
    v,
    count-set is_one bits inx false false,
    count-le is_one bits,
    length-set bits inx false,
    count-none is_one bits (j % 64) false,
    count-none is_one (set bits inx false) (j % 64) false,
  );
  codes = λ h. ground arith;
}
  where
    inx : ℕ
    inx = index % 64

    bits : List Bool
    bits = b.bit_block

-- An equal starting point.
Clears-base :
    {B : Type 0} (Valid : B → Type 0) (get : B → ℕ → Bool) (hit : ℕ → Bool) (index : ℕ) (b b' : B)
    (o : Outcome B)
    → ((j : ℕ) → get b j ≡ get b' j)
    → Clears Valid get hit index b o
    → Clears Valid get hit index b' o
Clears-base Valid get hit index b b' o e s = record {
  valid = s.valid;
  bits = λ j. rw (← e j) (s.bits j);
  was_clear = λ h. rw (← e index) (s.was_clear h);
  all_clear = s.all_clear;
  codes = s.codes;
}

module _ {B : Type 0} (Valid : B → Type 0) (get : B → ℕ → Bool) (hit : ℕ → ℕ → Bool) (slot : ℕ → ℕ)
    (slot-lt : (i : ℕ) → slot i < 64) (create : Bool → Memory → Option B × Memory)
    (sub : B → ℕ → Memory → Outcome B)
    (create_lem : (mem : Memory) (c : B)
      → (create true mem).0 ≡ some c
      → Valid c × ((j : ℕ) → get c j ≡ true))
    (sub_lem : (c : B) (i : ℕ) (mem : Memory)
      → Valid c
      → (sub c i mem).res ≢ enomem
      → Clears Valid get (hit i) i c (sub c i mem))
    (index : ℕ) where
  abbrev get_branch : Branch B → ℕ → Bool
  get_branch b j = get_array get j (slot j) b.blocks_array

  abbrev hit_branch : ℕ → Bool
  hit_branch j = slot index == slot j && hit index j

  abbrev ValidBranch : Branch B → Type 0
  ValidBranch b = BranchIsValid Valid b.fill_count b.cnt_full b.blocks_array

  clear_child-Clears :
      (b : Branch B) (arr : List (Ptr B)) (child : B) (mem : Memory)
      → SlotsIsValid Valid b.fill_count b.cnt_full arr
      → get_or arr (slot index) Ptr.empty ≡ Ptr.at child
      → Valid child
      → (clear_child create sub (slot index) index b arr child mem).res ≢ enomem
      → Clears ValidBranch get_branch hit_branch index
          (record b { blocks_array = Ptr.at arr })
          (clear_child create sub (slot index) index b arr child mem)
  unfolding clear_child get_array get_slot
  clear_child-Clears b arr child mem v e vc ok = record {
    valid = ground (
      arith,
      v,
      e,
      s,
      is_lt,
      counts,
      All-set (On Valid) arr inx (Ptr.at o.block) v.children s.valid,
      All-set (On Valid) arr inx Ptr.empty v.children tt,
      length-set arr inx (Ptr.at o.block),
      length-set arr inx Ptr.empty,
    );
    bits = λ j. ground (
      arith,
      v,
      e,
      is_lt,
      s.bits j,
      λ (h : o.st ≡ st_empty). s.all_clear h j,
      counts,
      get_or-set arr inx (slot j) (Ptr.at o.block) Ptr.empty,
      get_or-set arr inx (slot j) Ptr.empty Ptr.empty,
      slot-lt j,
      length-set arr inx Ptr.empty,
      count-none in_use (set arr inx Ptr.empty) (slot j) Ptr.empty,
    );
    was_clear = λ h. ground (arith, e, s.was_clear);
    all_clear = λ h j. ground (
      arith,
      v,
      is_lt,
      counts,
      get_or-set arr inx (slot j) Ptr.empty Ptr.empty,
      slot-lt j,
      length-set arr inx Ptr.empty,
      count-none in_use (set arr inx Ptr.empty) (slot j) Ptr.empty,
    );
    codes = λ h. ground (arith, s.codes);
  }
    where
      inx : ℕ
      inx = slot index

      is_lt : inx < 64
      is_lt = slot-lt index

      o : Outcome B
      o = sub child index mem

      s : Clears Valid get (hit index) index child o
      s = sub_lem child index mem vc (λ n. ok (rw (n, clear_child) n))

      counts :
          (count in_use (set arr inx (Ptr.at o.block)) ≡ count in_use arr)
          × (count is_full (set arr inx (Ptr.at o.block)) ≡ count is_full arr)
          × (count in_use (set arr inx Ptr.empty) + 1 ≡ count in_use arr)
          × (count is_full (set arr inx Ptr.empty) ≡ count is_full arr)
          × (count in_use arr ≤ 64)
          × (count is_full arr ≤ 64)
          × (count is_full (set arr inx Ptr.empty) ≤ count in_use (set arr inx Ptr.empty))
      counts = ground (
        arith,
        v,
        e,
        is_lt,
        count-set in_use arr inx (Ptr.at o.block) Ptr.empty,
        count-set is_full arr inx (Ptr.at o.block) Ptr.empty,
        count-set in_use arr inx Ptr.empty Ptr.empty,
        count-set is_full arr inx Ptr.empty Ptr.empty,
        count-le in_use arr,
        count-le is_full arr,
        count_mono is_full in_use (set arr inx Ptr.empty) is_full-in_use,
      )

  clear_slot-Clears :
      (b : Branch B) (arr : List (Ptr B)) (mem : Memory)
      → SlotsIsValid Valid b.fill_count b.cnt_full arr
      → (p : Ptr B) → get_or arr (slot index) Ptr.empty ≡ p
      → (clear_slot create sub (slot index) index b arr p mem).res ≢ enomem
      → Clears ValidBranch get_branch hit_branch index
          (record b { blocks_array = Ptr.at arr })
          (clear_slot create sub (slot index) index b arr p mem)
  unfolding clear_slot get_array get_slot
  clear_slot-Clears b arr mem v Ptr.empty e ok = record {
    valid = v;
    bits = λ j. ground (arith, e);
    was_clear = λ h. cc;
    all_clear = λ h j. cc;
    codes = λ h. absurd (h refl);
  }
  clear_slot-Clears b arr mem v (Ptr.at child) e ok =
      clear_child-Clears b arr child mem v e
        (rw e at (
          All-get_or (On Valid) arr (slot index) Ptr.empty v.children (rw v.width (slot-lt index))))
        ok
  clear_slot-Clears b arr mem v Ptr.full e ok = elim (Option-cases (create true mem).0) [
    | inl n ↦ absurd (ok (rw (n, clear_slot)))
    | inr (c, y) ↦
        rw (y, clear_slot)
          (Clears-base ValidBranch get_branch hit_branch index
            (record b {
              cnt_full = dec8 b.cnt_full;
              blocks_array = Ptr.at (set arr inx (Ptr.at c));
            })
            (record b { blocks_array = Ptr.at arr }) _
            (λ j. ground (
              arith,
              v,
              e,
              is_lt,
              get_or-set arr inx (slot j) (Ptr.at c) Ptr.empty,
              (create_lem mem c y).1 j,
            ))
            (clear_child-Clears (record b { cnt_full = dec8 b.cnt_full }) (set arr inx (Ptr.at c)) c
              (create true mem).1 (fresh c (create_lem mem c y).0)
              (ground (arith, v, is_lt, get_or-set arr inx inx (Ptr.at c) Ptr.empty))
              (create_lem mem c y).0 (rw (y, clear_slot) at ok)))
  ]
    where
      inx : ℕ
      inx = slot index

      is_lt : inx < 64
      is_lt = slot-lt index

      fresh :
          (c : B)
          → Valid c
          → SlotsIsValid Valid b.fill_count (dec8 b.cnt_full) (set arr inx (Ptr.at c))
      fresh c vc = ground (
        arith,
        v,
        e,
        is_lt,
        All-set (On Valid) arr inx (Ptr.at c) v.children vc,
        length-set arr inx (Ptr.at c),
        count-le is_full arr,
        count-set in_use arr inx (Ptr.at c) Ptr.empty,
        count-set is_full arr inx (Ptr.at c) Ptr.empty,
      )

  clear_array-Clears :
      (b : Branch B) (mem : Memory) (p : Ptr (List (Ptr B)))
      → BranchIsValid Valid b.fill_count b.cnt_full p
      → b.blocks_array ≡ p
      → (clear_array create sub (slot index) index b p mem).res ≢ enomem
      → Clears ValidBranch get_branch hit_branch index b
          (clear_array create sub (slot index) index b p mem)
  unfolding clear_array get_array get_slot
  clear_array-Clears b mem Ptr.empty v e ok = record {
    valid = rw e v;
    bits = λ j. ground (arith, e);
    was_clear = λ h. cc;
    all_clear = λ h j. rw e;
    codes = λ h. absurd (h refl);
  }
  clear_array-Clears b mem (Ptr.at arr) v e ok =
      Clears-base ValidBranch get_branch hit_branch index (record b { blocks_array = Ptr.at arr }) b
        _ (λ j. rw e) (clear_slot-Clears b arr mem v _ refl ok)
  clear_array-Clears b mem Ptr.full v e ok = elim (Bool-cases (alloc mem).0) [
    | inl y ↦
        rw (y, clear_array)
          (Clears-base ValidBranch get_branch hit_branch index
            (record b { blocks_array = Ptr.at solid }) b _ (λ j. ground (arith, e, solid_slot j))
            (clear_slot-Clears b solid (alloc mem).1 solid_valid _ refl
              (rw (y, clear_array) at ok)))
    | inr n ↦ absurd (ok (rw (n, clear_array)))
  ]
    where
      solid : List (Ptr B)
      solid = replicate block_size Ptr.full

      solid_slot : (j : ℕ) → get_or solid (slot j) Ptr.empty ≡ Ptr.full
      solid_slot j =
          All-get_or (λ q. q ≡ Ptr.full) solid (slot j) Ptr.empty
            (All-replicate (λ q. q ≡ Ptr.full) block_size Ptr.full refl) (slot-lt j)

      solid_valid : SlotsIsValid Valid b.fill_count b.cnt_full solid
      solid_valid = record {
        width = refl;
        filled = v.0;
        fulls = v.1;
        children = All-replicate (On Valid) block_size Ptr.full tt;
      }

inx_at-lt : (l i : ℕ) → inx_at l i < 64
inx_at-lt l i = omega arith

get_or-ones : (n i : ℕ) → i < n → get_or (replicate n true) i false ≡ true
get_or-ones zero i h = absurd (omega arith)
get_or-ones (suc n) zero h = refl
get_or-ones (suc n) (suc i) h = get_or-ones n i (omega arith)

-- A block created as BLOCK_FULL is well formed, and all its bits are set.
pub block_init-full :
    (l : ℕ)
    → BlockIsValid l (block_init l true) × ((j : ℕ) → block_get l (block_init l true) j ≡ true)
unfolding block_init block_get get_array
block_init-full zero = (omega arith, λ j. get_or-ones 64 (j % 64) (omega arith))
block_init-full (suc l) = (omega arith, λ j. refl)

made :
    (l : ℕ) (mem : Memory) (c : Block l)
    → (block_create l true mem).0 ≡ some c
    → block_init l true ≡ c
made l mem c y = ground arith

-- Clearing a bit of a well-formed tree of any height, where no allocation fails.
pub block_clear-Clears :
    (l : ℕ) (b : Block l) (index : ℕ) (mem : Memory)
    → BlockIsValid l b
    → (block_clear l b index mem).res ≢ enomem
    → Clears (BlockIsValid l) (block_get l) (same l index) index b (block_clear l b index mem)
unfolding block_clear block_get
block_clear-Clears zero b index mem v ok = clear_leaf-Clears b index mem v
block_clear-Clears (suc l) b index mem v ok =
    clear_array-Clears (BlockIsValid l) (block_get l) (same l) (inx_at (suc l)) (inx_at-lt (suc l))
      (block_create l) (block_clear l) (λ m c y. rw (← made l m c y) (block_init-full l))
      (λ c i m vc ok'. block_clear-Clears l c i m vc ok') index b mem b.blocks_array v refl ok

-- A well-formed block in which the slot of `index` is BLOCK_FULL, when no block can be allocated:
-- the clear fails, and all the bits of the slot are lost.
pub block_clear_enomem :
    (l : ℕ) (b : Block (suc l)) (index : ℕ) (mem : Memory) (arr : List (Ptr (Block l)))
    → BlockIsValid (suc l) b
    → b.blocks_array ≡ Ptr.at arr
    → get_or arr (inx_at (suc l) index) Ptr.empty ≡ Ptr.full
    → (alloc mem).0 ≡ false
    → let o = block_clear (suc l) b index mem in
      (o.res ≡ enomem)
      × ((j : ℕ)
          → inx_at (suc l) j ≡ inx_at (suc l) index
          → (block_get (suc l) b j ≡ true) × (block_get (suc l) o.block j ≡ false))
unfolding block_clear clear_array clear_slot block_get get_array get_slot
block_clear_enomem l b index mem arr v e s n = (ground (arith, e, s, n), λ j h. lost j h)
  where
    valid : SlotsIsValid (BlockIsValid l) b.fill_count b.cnt_full arr
    valid = rw e at v

    lost :
        (j : ℕ)
        → inx_at (suc l) j ≡ inx_at (suc l) index
        → (block_get (suc l) b j ≡ true)
          × (block_get (suc l) (block_clear (suc l) b index mem).block j ≡ false)
    lost j h =
        rw (e, h, clear_array, s, clear_slot, n)
          (
            refl,
            ground (
              arith,
              valid,
              inx_at-lt (suc l) index,
              get_or-set arr (inx_at (suc l) index) (inx_at (suc l) index) Ptr.empty Ptr.empty,
            ),
          )
