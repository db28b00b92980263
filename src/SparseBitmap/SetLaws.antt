-- ===== src/SparseBitmap/SetLaws.antt =====
-- `_sparse_block_set` of sparse_bitmap.c, at every level and for every run of the allocator.
use veeamsnap.Prelude.{
  ℕ, zero, suc, ◌+◌, ◌%◌, ◌<◌, ◌≤◌, ◌≡◌, refl, inl, inr, Bool, true, false, Option, some, List,
  count, ◌==◌, ◌&&◌, Bool-cases, Option-cases, get_or, set, replicate, length-set, get_or-set,
  All-set, All-get_or, All-replicate, count-set, count-full, count-le, count_mono, get_or-replicate,
  Memory, alloc, arith,
}
use veeamsnap.SparseBitmap.{
  Ptr, Leaf, Branch, Block, Outcome, block_size, inx_at, st_full, inc8, block_init, block_create,
  set_leaf, set_child, set_slot, set_array, block_set, block_get, get_slot, get_array,
}
use veeamsnap.SparseBitmap.Level.{
  same, in_use, is_full, is_full-in_use, On, is_one, LeafIsValid, SlotsIsValid, BranchIsValid,
  BlockIsValid, Sets,
}

set_leaf-Sets :
    (b : Leaf) (index : ℕ) (mem : Memory)
    → LeafIsValid b
    → Sets LeafIsValid (block_get 0) (same 0 index) index b (set_leaf b index mem)
unfolding set_leaf block_get
set_leaf-Sets b index mem v = record {
  valid = record {
    width = ground (arith, v, length-set bits inx true);
    filled = ground (
      arith,
      v,
      count-set is_one bits inx true false,
      count-le is_one bits,
      count-le is_one (set bits inx true),
      length-set bits inx true,
    );
  };
  bits = λ j. ground (arith, v, get_or-set bits inx (j % 64) true false);
  was_clear = λ h. ground arith;
  was_set = λ h. ground arith;
  all_set = λ h j. ground (
    arith,
    v,
    count-set is_one bits inx true false,
    count-le is_one bits,
    length-set bits inx true,
    count-full is_one bits (j % 64) false,
    count-full is_one (set bits inx true) (j % 64) false,
  );
  codes = λ h k. ground arith;
}
  where
    inx : ℕ
    inx = index % 64

    bits : List Bool
    bits = b.bit_block

-- An equal starting point.
Sets-base :
    {B : Type 0} (Valid : B → Type 0) (get : B → ℕ → Bool) (hit : ℕ → Bool) (index : ℕ) (b b' : B)
    (o : Outcome B)
    → ((j : ℕ) → get b j ≡ get b' j)
    → Sets Valid get hit index b o
    → Sets Valid get hit index b' o
Sets-base Valid get hit index b b' o e s = record {
  valid = s.valid;
  bits = λ j. rw (← e j) (s.bits j);
  was_clear = λ h. rw (← e index) (s.was_clear h);
  was_set = λ h. rw (← e index) (s.was_set h);
  all_set = s.all_set;
  codes = s.codes;
}

module _ {B : Type 0} (Valid : B → Type 0) (get : B → ℕ → Bool) (hit : ℕ → ℕ → Bool) (slot : ℕ → ℕ)
    (slot-lt : (i : ℕ) → slot i < 64) (create : Bool → Memory → Option B × Memory)
    (sub : B → ℕ → Memory → Outcome B)
    (create_lem : (mem : Memory) (c : B)
      → (create false mem).0 ≡ some c
      → Valid c × ((j : ℕ) → get c j ≡ false))
    (sub_lem : (c : B) (i : ℕ) (mem : Memory) → Valid c → Sets Valid get (hit i) i c (sub c i mem))
    (index : ℕ) where
  abbrev get_branch : Branch B → ℕ → Bool
  get_branch b j = get_array get j (slot j) b.blocks_array

  abbrev hit_branch : ℕ → Bool
  hit_branch j = slot index == slot j && hit index j

  abbrev ValidBranch : Branch B → Type 0
  ValidBranch b = BranchIsValid Valid b.fill_count b.cnt_full b.blocks_array

  set_child-Sets :
      (b : Branch B) (arr : List (Ptr B)) (child : B) (mem : Memory)
      → SlotsIsValid Valid b.fill_count b.cnt_full arr
      → get_or arr (slot index) Ptr.empty ≡ Ptr.at child
      → Valid child
      → Sets ValidBranch get_branch hit_branch index
          (record b { blocks_array = Ptr.at arr })
          (set_child create sub (slot index) index b arr child mem)
  unfolding set_child get_array get_slot
  set_child-Sets b arr child mem v e vc = record {
    valid = ground (
      arith,
      v,
      e,
      s,
      is_lt,
      counts,
      All-set (On Valid) arr inx (Ptr.at o.block) v.children s.valid,
      All-set (On Valid) arr inx Ptr.full v.children tt,
      length-set arr inx (Ptr.at o.block),
      length-set arr inx Ptr.full,
    );
    bits = λ j. ground (
      arith,
      v,
      e,
      is_lt,
      s.bits j,
      λ (h : o.st ≡ st_full). s.all_set h j,
      counts,
      get_or-set arr inx (slot j) (Ptr.at o.block) Ptr.empty,
      get_or-set arr inx (slot j) Ptr.full Ptr.empty,
      slot-lt j,
      length-set arr inx Ptr.full,
      count-full is_full (set arr inx Ptr.full) (slot j) Ptr.empty,
    );
    was_clear = λ h. ground (arith, e, s.was_clear);
    was_set = λ h. ground (arith, e, s.was_set);
    all_set = λ h j. ground (
      arith,
      v,
      is_lt,
      counts,
      get_or-set arr inx (slot j) Ptr.full Ptr.empty,
      slot-lt j,
      length-set arr inx Ptr.full,
      count-full is_full (set arr inx Ptr.full) (slot j) Ptr.empty,
    );
    codes = λ h k. ground (arith, s.codes);
  }
    where
      inx : ℕ
      inx = slot index

      is_lt : inx < 64
      is_lt = slot-lt index

      o : Outcome B
      o = sub child index mem

      s : Sets Valid get (hit index) index child o
      s = sub_lem child index mem vc

      counts :
          (count in_use (set arr inx (Ptr.at o.block)) ≡ count in_use arr)
          × (count is_full (set arr inx (Ptr.at o.block)) ≡ count is_full arr)
          × (count in_use (set arr inx Ptr.full) ≡ count in_use arr)
          × (count is_full (set arr inx Ptr.full) ≡ count is_full arr + 1)
          × (count in_use arr ≤ 64)
          × (count is_full arr ≤ 64)
          × (count is_full (set arr inx Ptr.full) ≤ count in_use arr)
      counts = ground (
        arith,
        v,
        e,
        is_lt,
        count-set in_use arr inx (Ptr.at o.block) Ptr.empty,
        count-set is_full arr inx (Ptr.at o.block) Ptr.empty,
        count-set in_use arr inx Ptr.full Ptr.empty,
        count-set is_full arr inx Ptr.full Ptr.empty,
        count-le in_use arr,
        count-le is_full arr,
        count-le is_full (set arr inx Ptr.full),
        length-set arr inx Ptr.full,
        count_mono is_full in_use (set arr inx Ptr.full) is_full-in_use,
      )

  set_slot-Sets :
      (b : Branch B) (arr : List (Ptr B)) (mem : Memory)
      → SlotsIsValid Valid b.fill_count b.cnt_full arr
      → (p : Ptr B) → get_or arr (slot index) Ptr.empty ≡ p
      → Sets ValidBranch get_branch hit_branch index
          (record b { blocks_array = Ptr.at arr })
          (set_slot create sub (slot index) index b arr p mem)
  unfolding set_slot get_array get_slot
  set_slot-Sets b arr mem v Ptr.full e = record {
    valid = v;
    bits = λ j. refl;
    was_clear = λ h. cc;
    was_set = λ h. rw e;
    all_set = λ h j. cc;
    codes = λ h k. absurd (k refl);
  }
  set_slot-Sets b arr mem v (Ptr.at child) e = set_child-Sets b arr child mem v e (
      rw e at
        (All-get_or (On Valid) arr (slot index) Ptr.empty v.children (rw v.width (slot-lt index))))
  set_slot-Sets b arr mem v Ptr.empty e = elim (Option-cases (create false mem).0) [
    | inl n ↦
        rw (n, set_slot)
          (record {
            valid = ground (
              arith,
              v,
              e,
              is_lt,
              All-set (On Valid) arr inx Ptr.empty v.children tt,
              length-set arr inx Ptr.empty,
              count-set in_use arr inx Ptr.empty Ptr.empty,
              count-set is_full arr inx Ptr.empty Ptr.empty,
            );
            bits =
                λ j. ground (arith, v, e, is_lt, get_or-set arr inx (slot j) Ptr.empty Ptr.empty);
            was_clear = λ h. cc;
            was_set = λ h. cc;
            all_set = λ h j. cc;
            codes = λ h k. refl;
          })
    | inr (c, y) ↦
        rw (y, set_slot)
          (Sets-base ValidBranch get_branch hit_branch index
            (record b {
              fill_count = inc8 b.fill_count;
              blocks_array = Ptr.at (set arr inx (Ptr.at c));
            })
            (record b { blocks_array = Ptr.at arr }) _
            (λ j. ground (
              arith,
              v,
              e,
              is_lt,
              get_or-set arr inx (slot j) (Ptr.at c) Ptr.empty,
              (create_lem mem c y).1 j,
            ))
            (set_child-Sets (record b { fill_count = inc8 b.fill_count }) (set arr inx (Ptr.at c)) c
              (create false mem).1 (fresh c (create_lem mem c y).0)
              (ground (arith, v, is_lt, get_or-set arr inx inx (Ptr.at c) Ptr.empty))
              (create_lem mem c y).0))
  ]
    where
      inx : ℕ
      inx = slot index

      is_lt : inx < 64
      is_lt = slot-lt index

      fresh :
          (c : B)
          → Valid c
          → SlotsIsValid Valid (inc8 b.fill_count) b.cnt_full (set arr inx (Ptr.at c))
      fresh c vc = ground (
        arith,
        v,
        e,
        is_lt,
        All-set (On Valid) arr inx (Ptr.at c) v.children vc,
        length-set arr inx (Ptr.at c),
        count-le in_use arr,
        count-set in_use arr inx (Ptr.at c) Ptr.empty,
        count-set is_full arr inx (Ptr.at c) Ptr.empty,
      )

  set_array-Sets :
      (b : Branch B) (mem : Memory) (p : Ptr (List (Ptr B)))
      → BranchIsValid Valid b.fill_count b.cnt_full p
      → b.blocks_array ≡ p
      → Sets ValidBranch get_branch hit_branch index b
          (set_array create sub (slot index) index b p mem)
  unfolding set_array get_array get_slot
  set_array-Sets b mem Ptr.full v e = record {
    valid = rw e v;
    bits = λ j. refl;
    was_clear = λ h. cc;
    was_set = λ h. rw e;
    all_set = λ h j. cc;
    codes = λ h k. absurd (k refl);
  }
  set_array-Sets b mem (Ptr.at arr) v e =
      Sets-base ValidBranch get_branch hit_branch index (record b { blocks_array = Ptr.at arr }) b _
        (λ j. rw e) (set_slot-Sets b arr mem v _ refl)
  set_array-Sets b mem Ptr.empty v e = elim (Bool-cases (alloc mem).0) [
    | inl y ↦
        rw (y, set_array)
          (Sets-base ValidBranch get_branch hit_branch index
            (record b { blocks_array = Ptr.at blank }) b _
            (λ j. rw (e, get_or-replicate {A = Ptr B} 64 Ptr.empty (slot j)))
            (set_slot-Sets b blank (alloc mem).1 blank_valid _ refl))
    | inr n ↦
        rw (n, set_array)
          (record {
            valid = rw e v;
            bits = λ j. refl;
            was_clear = λ h. cc;
            was_set = λ h. cc;
            all_set = λ h j. cc;
            codes = λ h k. refl;
          })
  ]
    where
      blank : List (Ptr B)
      blank = replicate block_size Ptr.empty

      blank_valid : SlotsIsValid Valid b.fill_count b.cnt_full blank
      blank_valid = record {
        width = refl;
        filled = v.0;
        fulls = v.1;
        children = All-replicate (On Valid) block_size Ptr.empty tt;
      }

inx_at-lt : (l i : ℕ) → inx_at l i < 64
inx_at-lt l i = omega arith

-- A created block is well formed, and clear.
pub block_init-clear :
    (l : ℕ)
    → BlockIsValid l (block_init l false) × ((j : ℕ) → block_get l (block_init l false) j ≡ false)
unfolding block_init block_get get_array
block_init-clear zero = (omega arith, λ j. get_or-replicate 64 false (j % 64))
block_init-clear (suc l) = (omega arith, λ j. refl)

made :
    (l : ℕ) (mem : Memory) (c : Block l)
    → (block_create l false mem).0 ≡ some c
    → block_init l false ≡ c
made l mem c y = ground arith

-- Setting a bit of a well-formed tree of any height.
pub block_set-Sets :
    (l : ℕ) (b : Block l) (index : ℕ) (mem : Memory)
    → BlockIsValid l b
    → Sets (BlockIsValid l) (block_get l) (same l index) index b (block_set l b index mem)
unfolding block_set block_get
block_set-Sets zero b index mem v = set_leaf-Sets b index mem v
block_set-Sets (suc l) b index mem v =
    set_array-Sets (BlockIsValid l) (block_get l) (same l) (inx_at (suc l)) (inx_at-lt (suc l))
      (block_create l) (block_set l) (λ m c y. rw (← made l m c y) (block_init-clear l))
      (λ c i m vc. block_set-Sets l c i m vc) index b mem b.blocks_array v refl
