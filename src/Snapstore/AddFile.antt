-- ===== src/Snapstore/AddFile.antt =====
-- What `snapstore_add_file` of snapstore.c makes of the ranges.
use mathlib.Core.List.{append_assoc, append-nil}
use mathlib.Core.Path.{subst, ap₂}
use veeamsnap.Prelude.{
  ℕ, zero, suc, ◌+◌, ◌-◌, ◌<◌, ◌≤◌, ◌≡◌, refl, sym, ap, ◌∙◌, inl, inr, Option, some, List, [], ◌∷◌,
  ◌++◌, ltb, if◌then◌else◌, Bool-cases, All, Status, success, enomem, is_success, Memory, arith,
}
use veeamsnap.Range.{Range, run, total}
use veeamsnap.BlkDescrPool.{Pool}
use veeamsnap.BlkDescrPool.Laws.{IsValid, descriptors}
use veeamsnap.Snapstore.{
  Adding, add_piece, piece, add_range, IoctlRange, range_of, after_range, add_ranges, add_file,
}
use veeamsnap.Snapstore.Pieces.{block_sectors, laid_out, IsLaid, Lays, add_piece_lem}

run-append : (a n m : ℕ) → run a n ++ run (a + n) m ≡ run a (n + m)
run-append a zero m = ap₂ run (omega arith) (omega arith)
run-append a (suc n) m =
    let next : a + suc n ≡ a + 1 + n = omega arith in
    let whole : suc (n + m) ≡ suc n + m = omega arith in
    ap (◌∷◌ a) (ap (λ (b : ℕ). run (a + 1) n ++ run b m) next ∙ run-append (a + 1) n m)
    ∙ ap (run a) whole

-- The pieces of a range: enough rounds end the loop.
add_range_lem :
    (rounds blk capacity : ℕ) (range : Range) (off : ℕ) (st : Adding)
    → IsLaid blk st
    → range.cnt < off + rounds
    → off ≤ range.cnt
    → (r : Status × Adding) × (add_range rounds blk capacity range off st ≡ some r)
      × Lays blk (laid_out st ++ run (range.ofs + off) (range.cnt - off)) r
unfolding add_range
add_range_lem zero blk capacity range off st v h le = absurd (omega arith)
add_range_lem (suc rounds) blk capacity range off st v h le =
    elim (Bool-cases (ltb off range.cnt)) [
      | inl y ↦
          let rg : Range = piece blk range off st in
          let one = add_piece_lem blk capacity rg st v (omega arith) in
          elim one [
            | inl done ↦
                let rest =
                  add_range_lem rounds blk capacity range (off + rg.cnt)
                    (add_piece blk capacity rg st).1 done.1 (ground (arith, y, h, v.not_full))
                    (omega (arith, le)) in
                let left : ℕ = range.cnt - (off + rg.cnt) in
                let shift : range.ofs + (off + rg.cnt) ≡ rg.ofs + rg.cnt = omega arith in
                let whole : rg.cnt + left ≡ range.cnt - off = ground (arith, y) in
                let joined : laid_out (add_piece blk capacity rg st).1
                      ++ run (range.ofs + (off + rg.cnt)) left
                    ≡ laid_out st ++ run (range.ofs + off) (range.cnt - off) =
                  ap (λ xs. xs ++ run (range.ofs + (off + rg.cnt)) left) done.2
                  ∙ append_assoc (laid_out st) (run rg.ofs rg.cnt)
                      (run (range.ofs + (off + rg.cnt)) left)
                  ∙ ap (◌++◌ (laid_out st)) (
                      ap (λ (b : ℕ). run rg.ofs rg.cnt ++ run b left) shift
                      ∙ run-append rg.ofs rg.cnt left
                      ∙ ap (run rg.ofs) whole) in
                (rest.0, rw (y, done.0) rest.1, subst (λ xs. Lays blk xs rest.0) joined rest.2)
            | inr refused ↦ (add_piece blk capacity rg st, rw (y, refused) refl, inr refused)
          ]
      | inr n ↦
          let none_left : 0 ≡ range.cnt - off = ground (arith, n) in
          (
            (success, st),
            rw n refl,
            inl (
              refl,
              v,
              sym (append-nil (laid_out st))
                  ∙ ap (λ (k : ℕ). laid_out st ++ run (range.ofs + off) k) none_left,
            ),
          )
    ]

-- The sectors of the ranges that were asked for.
abbrev pub asked : List IoctlRange → List ℕ
asked [] = []
asked (r ∷ ranges) = run (range_of r).ofs (range_of r).cnt ++ asked ranges

after_range-success :
    (others : Adding → Option (Status × Adding)) (r : Status × Adding)
    → r.0 ≡ success
    → after_range others (some r) ≡ others r.1
unfolding after_range
after_range-success others (res, st) e =
    ap (λ s. if is_success s then others st else some (s, st)) e

after_range-enomem :
    (others : Adding → Option (Status × Adding)) (r : Status × Adding)
    → r.0 ≡ enomem
    → after_range others (some r) ≡ some r
unfolding after_range
after_range-enomem others (res, st) e =
    ap (λ s. if is_success s then others st else some (s, st)) e ∙ ap (λ s. some (s, st)) (sym e)

add_ranges_lem :
    (blk capacity : ℕ) (ranges : List IoctlRange) (st : Adding)
    → IsLaid blk st
    → (r : Status × Adding) × (add_ranges blk capacity ranges st ≡ some r)
      × Lays blk (laid_out st ++ asked ranges) r
unfolding add_ranges
add_ranges_lem blk capacity [] st v =
    ((success, st), refl, inl (refl, v, sym (append-nil (laid_out st))))
add_ranges_lem blk capacity (range ∷ ranges) st v =
    let one =
      add_range_lem (suc (range_of range).cnt) blk capacity (range_of range) 0 st v (omega arith)
        (omega arith) in
    elim one.2 [
      | inl done ↦
          let rest = add_ranges_lem blk capacity ranges one.0.1 done.1 in
          let joined : laid_out one.0.1 ++ asked ranges ≡ laid_out st ++ asked (range ∷ ranges) =
            ap (λ xs. xs ++ asked ranges)
              (done.2 ∙ ap₂ (λ (a n : ℕ). laid_out st ++ run a n) start size)
            ∙ append_assoc (laid_out st) (run (range_of range).ofs (range_of range).cnt)
                (asked ranges) in
          (
            rest.0,
            ap (after_range (add_ranges blk capacity ranges)) one.1
                ∙ after_range-success (add_ranges blk capacity ranges) one.0 done.0
                ∙ rest.1,
            subst (λ xs. Lays blk xs rest.0) joined rest.2,
          )
      | inr refused ↦ (
        one.0,
        ap (after_range (add_ranges blk capacity ranges)) one.1
            ∙ after_range-enomem (add_ranges blk capacity ranges) one.0 refused,
        inr refused,
      )
    ]
  where
    start : (range_of range).ofs + 0 ≡ (range_of range).ofs
    start = omega arith

    size : (range_of range).cnt - 0 ≡ (range_of range).cnt
    size = omega arith

-- `snapstore_add_file`, for one range or more and a valid pool of blocks of `blk` sectors, `blk` above
-- 0, returns with one of two outcomes: an allocation was refused, or the sectors of the ranges, in
-- order, follow those of the pool's blocks, every block of the pool has `blk` sectors, and fewer are
-- left over.
pub add_file_lem :
    (blk capacity : ℕ) (range : IoctlRange) (ranges : List IoctlRange) (pool : Pool (List Range))
    (mem : Memory)
    → 0 < blk
    → IsValid 0 pool
    → All (λ d. total d ≡ blk) (descriptors pool.head)
    → (r : Status × Adding) × (add_file blk capacity (range ∷ ranges) pool mem ≡ some r)
      × Lays blk (block_sectors (descriptors pool.head) ++ asked (range ∷ ranges)) r
unfolding add_file
add_file_lem blk capacity range ranges pool mem pos v whole =
    let start : Adding = record {
      blk_rangelist = [];
      current_blk_size = 0;
      pool = pool;
      mem = mem;
    } in
    let all =
      add_ranges_lem blk capacity (range ∷ ranges) start
        (record { pool_valid = v; whole = whole; size_is = refl; not_full = pos }) in
    (
      all.0,
      all.1,
      subst (λ xs. Lays blk (xs ++ asked (range ∷ ranges)) all.0)
          (append-nil (block_sectors (descriptors pool.head))) all.2,
    )
