-- ===== src/SparseBitmap/Bitmap/Laws.antt =====
-- What the bitmap of sparse_bitmap.c promises its callers, and where it does not keep to it.
use native.Mathlib.Nat.{pow-suc, div-div-eq-div-mul, mod-eq_of_lt, add-mod_right, div-one}
use native.Mathlib.Numerals.{add-one}
use veeamsnap.Prelude.{
  ℕ, zero, suc, ◌+◌, ◌-◌, ◌*◌, ◌/◌, ◌^◌, ◌<◌, ◌≤◌, ◌≡◌, ◌≢◌, sym, ap, ◌∙◌, ◌⊎◌, inl, inr, Bool,
  true, false, none, some, ltb, if◌then◌else◌, ◌==◌, Bool-cases, success, einval, enomem, ealready,
  is_success, ◌&&◌, Memory, arith,
}
use veeamsnap.Prelude.Word.{word}
use veeamsnap.SparseBitmap.{block_init, block_set, block_get, block_clear, set_leaf}
use veeamsnap.SparseBitmap.Level.{same, BlockIsValid, Sets, Clears}
use veeamsnap.SparseBitmap.SetLaws.{block_set-Sets, block_init-clear}
use veeamsnap.SparseBitmap.ClearLaws.{block_clear-Clears}
use veeamsnap.SparseBitmap.Address.{capacity, same_iff}
use veeamsnap.SparseBitmap.Bitmap.{
  Bitmap, calc_level_loop, calc_level, create, is_outside, set_bit, get_bit,
}

calc_level_loop-total :
    (rounds n ull level : ℕ)
    → ull < 65 * 64 ^ rounds
    → n / 64 ^ level ≡ ull
    → (l : ℕ) × (calc_level_loop (suc rounds) ull level ≡ some l) × (n / 64 ^ l ≤ 64)
unfolding calc_level_loop
calc_level_loop-total zero n ull level h e = (level, ground arith, omega arith)
calc_level_loop-total (suc rounds) n ull level h e = elim (Bool-cases (ltb 64 ull)) [
  | inl more ↦
      let step : n / 64 ^ (level + 1) ≡ ull / 64 =
        rw (add-one, pow-suc)
          (sym (div-div-eq-div-mul n (64 ^ level) 64) ∙ ap (λ (t : ℕ). t / 64) e) in
      let ih =
        calc_level_loop-total rounds n (ull / 64) (level + 1) (omega (arith, h, pow-suc 64 rounds))
          step in
      (ih.0, rw more ih.1, ih.2)
  | inr done ↦ (level, rw done, ground arith)
]

-- `_calc_level` returns for every 64-bit length, with a level l for which length / 64 ^ l is at
-- most 64.
pub calc_level-total :
    (length : ℕ) → length < word → (l : ℕ) × (calc_level length ≡ some l) × (length / 64 ^ l ≤ 64)
unfolding calc_level
calc_level-total length h = calc_level_loop-total 10 length length 0 (omega arith) (div-one length)

-- The window is the bitmap's own: it does not wrap, and its block is well formed and large enough.
pub record IsValid (bm : Bitmap) : Type 0 where
  pub no_wrap : bm.start_index + bm.length < word
  pub block_valid : BlockIsValid bm.level bm.sparse_block
  pub fits : bm.length ≤ capacity bm.level

abbrev pub InWindow : Bitmap → ℕ → Type 0
InWindow bm i = (bm.start_index ≤ i) × (i < bm.start_index + bm.length)

-- In the window distinct indices have distinct bits.
same-window :
    (bm : Bitmap) (i j : ℕ)
    → IsValid bm
    → InWindow bm i
    → InWindow bm j
    → same bm.level (i - bm.start_index) (j - bm.start_index) ≡ (i == j)
same-window bm i j v hi hj = ground (
  arith,
  hi,
  hj,
  v.fits,
  same_iff bm.level a b,
  mod-eq_of_lt {n = a} {m = capacity bm.level},
  mod-eq_of_lt {n = b} {m = capacity bm.level},
)
  where
    a : ℕ
    a = i - bm.start_index

    b : ℕ
    b = j - bm.start_index

inside :
    (bm : Bitmap) (i : ℕ)
    → bm.start_index + bm.length < word
    → InWindow bm i
    → is_outside bm i ≡ false
inside bm i w h = ground arith

-- The window stays where it is.
pub set_bit-window :
    (bm : Bitmap) (index : ℕ) (state : Bool) (mem : Memory)
    → let r = set_bit bm index state mem in
      (r.1.start_index ≡ bm.start_index) × (r.1.length ≡ bm.length)
unfolding set_bit
set_bit-window bm index state mem = ground arith

module _ (bm : Bitmap) (index : ℕ) (mem : Memory) (v : IsValid bm) (h : InWindow bm index) where
  set_outcome :
      Sets
        (BlockIsValid bm.level)
        (block_get bm.level)
        (same bm.level (index - bm.start_index))
        (index - bm.start_index)
        bm.sparse_block
        (block_set bm.level bm.sparse_block (index - bm.start_index) mem)
  set_outcome = block_set-Sets bm.level bm.sparse_block (index - bm.start_index) mem v.block_valid

  -- Setting a bit of the window keeps the bitmap valid, and its result is SUCCESS where the bit was
  -- clear, EALREADY where it was set, or ENOMEM.
  pub set_bit-result :
      let r = set_bit bm index true mem in
      IsValid r.1
      × ((r.0 ≡ enomem)
          ⊎ ((r.0 ≡ success) × (get_bit bm index ≡ (success, some false)))
          ⊎ ((r.0 ≡ ealready) × (get_bit bm index ≡ (success, some true))))
  unfolding set_bit get_bit
  set_bit-result = rw (inside bm index v.no_wrap h) (
    record { no_wrap = v.no_wrap; block_valid = set_outcome.valid; fits = v.fits },
    ground (arith, set_outcome.codes, set_outcome.was_set, set_outcome.was_clear),
  )

  -- In a valid bitmap, whose window does not wrap and is no longer than its root block has room for, after
  -- a set of one index of the window, every index of the window reads as before, but that the index
  -- itself reads as set if the call succeeded.
  pub set_bit-get_bit :
      (j : ℕ)
      → InWindow bm j
      → let r = set_bit bm index true mem in
        get_bit r.1 j
        ≡ (if is_success r.0 && index == j then (success, some true) else get_bit bm j)
  unfolding set_bit get_bit
  set_bit-get_bit j hj =
      rw (inside bm index v.no_wrap h, inside bm j v.no_wrap hj)
        (ground (arith, set_outcome.bits (j - bm.start_index), same-window bm index j v h hj))

  -- Clearing a bit of the window, where memory does not run out: the bitmap stays valid, the index
  -- reads as clear, and every other index as before.
  pub clear_bit-get_bit :
      (j : ℕ)
      → InWindow bm j
      → (set_bit bm index false mem).0 ≢ enomem
      → let r = set_bit bm index false mem in
        IsValid r.1 × (get_bit r.1 j ≡ (if index == j then (success, some false) else get_bit bm j))
  unfolding set_bit get_bit
  clear_bit-get_bit j hj ok =
      rw (inside bm index v.no_wrap h, inside bm j v.no_wrap hj)
        (
          record { no_wrap = v.no_wrap; block_valid = cleared.valid; fits = v.fits },
          ground (arith, cleared.bits (j - bm.start_index), same-window bm index j v h hj),
        )
    where
      at : ℕ
      at = index - bm.start_index

      cleared :
          Clears
            (BlockIsValid bm.level)
            (block_get bm.level)
            (same bm.level at)
            at
            bm.sparse_block
            (block_clear bm.level bm.sparse_block at mem)
      cleared =
          block_clear-Clears bm.level bm.sparse_block at mem v.block_valid
            (rw (inside bm index v.no_wrap h) at ok)

-- The bitmap that a successful `sparsebitmap_create` leaves.
abbrev pub blank : ℕ → ℕ → ℕ → Bitmap
blank start length l = record {
  start_index = start;
  length = length;
  level = l;
  sparse_block = block_init l false;
}

pub blank-IsValid :
    (start length l : ℕ)
    → start + length < word
    → length ≤ capacity l
    → IsValid (blank start length l)
blank-IsValid start length l h k = record {
  no_wrap = h;
  block_valid = (block_init-clear l).0;
  fits = k;
}

-- Creating a bitmap over a window that does not wrap succeeds, at a level l for which
-- length / 64 ^ l is at most 64, and every index of the window then reads as clear.
pub create_lem :
    (start length : ℕ)
    → start + length < word
    → (l : ℕ) × (create start length ≡ some (blank start length l))
      × (length / 64 ^ l ≤ 64)
      × ((j : ℕ)
          → get_bit (blank start length l) j ≡ (
              if is_outside (blank start length l) j
              then (einval, none)
              else (success, some false)))
unfolding create get_bit
create_lem start length h =
    let (l, e, k) = calc_level-total length (omega arith) in
    (l, rw (e, create), k, λ j. rw ((block_init-clear l).1 (j - start)))

-- A bitmap of one leaf asks for no memory.
pub blank_leaf-granted :
    (start length index : ℕ) (mem : Memory)
    → (set_bit (blank start length 0) index true mem).0 ≢ enomem
unfolding set_bit block_set set_leaf
blank_leaf-granted start length index mem e = ground (arith, e)

-- The level can be one too low, since `_calc_level` shifts without rounding up: where the window is
-- larger than the block, a set of the first index also sets the index one capacity further on.
pub set_bit_aliases :
    (start length l : ℕ) (mem : Memory)
    → create start length ≡ some (blank start length l)
    → start + length < word
    → capacity l < length
    → (set_bit (blank start length l) start true mem).0 ≡ success
    → (get_bit (blank start length l) (start + capacity l) ≡ (success, some false))
      × (get_bit (set_bit (blank start length l) start true mem).1 (start + capacity l)
          ≡ (success, some true))
unfolding set_bit get_bit
set_bit_aliases start length l mem e h k ok =
    rw (inside bm start h (omega arith), inside bm far h (omega arith))
      (
        ap (λ b. (success, some b)) ((block_init-clear l).1 (far - start)),
        ap (λ b. (success, some b)) (ground (arith, s.bits (far - start), shared, won)),
      )
  where
    bm : Bitmap
    bm = blank start length l

    far : ℕ
    far = start + capacity l

    s :
        Sets
          (BlockIsValid l)
          (block_get l)
          (same l (start - start))
          (start - start)
          (block_init l false)
          (block_set l (block_init l false) (start - start) mem)
    s = block_set-Sets l (block_init l false) (start - start) mem (block_init-clear l).0

    won : (block_set l (block_init l false) (start - start) mem).res ≡ success
    won = rw (inside bm start h (omega arith)) at ok

    shared : same l (start - start) (far - start) ≡ true
    shared =
        let step : far - start ≡ start - start + capacity l = omega arith in
        (same_iff l (start - start) (far - start)).1 (rw (step, add-mod_right))
