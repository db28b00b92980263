-- ===== src/Snapstore/Pieces.antt =====
-- `snapstore_add_file`: what one piece of a range adds to the blocks.
use mathlib.Core.List.{append_assoc, append-nil}
use mathlib.Core.Path.{subst}
use veeamsnap.Prelude.{
  ℕ, ◌+◌, ◌-◌, ◌<◌, ◌≤◌, ◌≡◌, ◌⊎◌, refl, sym, ap, ◌∙◌, inl, inr, ◌||◌, List, [], ◌∷◌, ◌++◌, ◌==◌,
  ==_iff, Bool-cases, All, Status, success, enomem, alloc, arith,
}
use veeamsnap.Range.{Range, run, sectors, total}
use veeamsnap.BlkDescrPool.{pool_alloc, last_has_room}
use veeamsnap.BlkDescrPool.Laws.{IsValid, descriptors, pool_alloc_lem}
use veeamsnap.Snapstore.{rangelist_add, Adding, close_block, add_piece}

-- The sectors of blocks, one block after the other.
abbrev pub block_sectors : List (List Range) → List ℕ
block_sectors [] = []
block_sectors (d ∷ ds) = sectors d ++ block_sectors ds

-- The sectors of the pool's blocks, and then of the block that is not full.
abbrev pub laid_out : Adding → List ℕ
laid_out st = block_sectors (descriptors st.pool.head) ++ sectors st.blk_rangelist

-- Every block of the pool has `blk` sectors; the last one has fewer, and its size is kept.
pub record IsLaid (blk : ℕ) (st : Adding) : Type 0 where
  pub pool_valid : IsValid 0 st.pool
  pub whole : All (λ d. total d ≡ blk) (descriptors st.pool.head)
  pub size_is : st.current_blk_size ≡ total st.blk_rangelist
  pub not_full : st.current_blk_size < blk

block_sectors-append :
    (ds : List (List Range)) (d : List Range)
    → block_sectors (ds ++ d ∷ []) ≡ block_sectors ds ++ sectors d
block_sectors-append [] d = append-nil (sectors d)
block_sectors-append (e ∷ ds) d =
    ap (◌++◌ (sectors e)) (block_sectors-append ds d)
    ∙ sym (append_assoc (sectors e) (block_sectors ds) (sectors d))

All-append_one :
    {A : Type 0} (P : A → Type 0) (xs : List A) (x : A) → All P xs → P x → All P (xs ++ x ∷ [])
All-append_one P [] x h p = (p, tt)
All-append_one P (y ∷ xs) x h p = (h.0, All-append_one P xs x h.1 p)

sectors-append_one :
    (rgs : List Range) (rg : Range) → sectors (rgs ++ rg ∷ []) ≡ sectors rgs ++ run rg.ofs rg.cnt
sectors-append_one [] rg = append-nil (run rg.ofs rg.cnt)
sectors-append_one (r ∷ rgs) rg =
    ap (◌++◌ (run r.ofs r.cnt)) (sectors-append_one rgs rg)
    ∙ sym (append_assoc (run r.ofs r.cnt) (sectors rgs) (run rg.ofs rg.cnt))

total-append_one : (rgs : List Range) (rg : Range) → total (rgs ++ rg ∷ []) ≡ total rgs + rg.cnt
total-append_one [] rg = omega arith
total-append_one (r ∷ rgs) rg = omega (arith, total-append_one rgs rg)

-- The outcome of a step: the sectors laid out are these, in blocks of `blk`, or an allocation was
-- refused.
abbrev pub Lays : ℕ → List ℕ → Status × Adding → Type 0
Lays blk xs r = ((r.0 ≡ success) × IsLaid blk r.1 × (laid_out r.1 ≡ xs)) ⊎ (r.0 ≡ enomem)

-- Closing a block changes nothing of the layout.
close_block_lem :
    (blk capacity : ℕ) (st : Adding)
    → 0 < blk
    → IsValid 0 st.pool
    → All (λ d. total d ≡ blk) (descriptors st.pool.head)
    → st.current_blk_size ≡ total st.blk_rangelist
    → st.current_blk_size ≤ blk
    → Lays blk (laid_out st) (close_block blk capacity st)
unfolding close_block
close_block_lem blk capacity st pos v whole size le =
    elim (Bool-cases (st.current_blk_size == blk)) [
      | inl y ↦
          let a = pool_alloc_lem capacity 0 st.pool st.blk_rangelist st.mem v in
          elim (Bool-cases (last_has_room st.pool.head || (alloc st.mem).0)) [
            | inl g ↦
                let stored : (pool_alloc capacity st.pool st.blk_rangelist st.mem).0 ≡ success =
                  a.1 ∙ rw g refl in
                let more : descriptors (pool_alloc capacity st.pool st.blk_rangelist st.mem).1.head
                    ≡ descriptors st.pool.head ++ st.blk_rangelist ∷ [] =
                  a.2 ∙ rw g refl in
                let full : total st.blk_rangelist ≡ blk =
                  omega (arith, size, (==_iff st.current_blk_size blk).0 y) in
                inl (
                  rw (y, stored)
                    (
                      refl,
                      record {
                        pool_valid = a.0;
                        whole = rw more (
                            All-append_one (λ d. total d ≡ blk) (descriptors st.pool.head)
                              st.blk_rangelist whole full);
                        size_is = refl;
                        not_full = pos;
                      },
                      append-nil (
                            block_sectors (
                              descriptors
                                (pool_alloc capacity st.pool st.blk_rangelist st.mem).1.head))
                          ∙ ap block_sectors more
                          ∙ block_sectors-append (descriptors st.pool.head) st.blk_rangelist,
                    ))
            | inr g ↦
                let refused : (pool_alloc capacity st.pool st.blk_rangelist st.mem).0 ≡ enomem =
                  a.1 ∙ rw g refl in
                inr (rw (y, refused) refl)
          ]
      | inr n ↦ inl (
          rw n (
            refl,
            record {
              pool_valid = v;
              whole = whole;
              size_is = size;
              not_full = ground (arith, n, le);
            },
            refl,
          ))
    ]

-- One piece, no larger than the room in the block: its sectors come behind the others.
pub add_piece_lem :
    (blk capacity : ℕ) (rg : Range) (st : Adding)
    → IsLaid blk st
    → rg.cnt ≤ blk - st.current_blk_size
    → Lays blk (laid_out st ++ run rg.ofs rg.cnt) (add_piece blk capacity rg st)
unfolding add_piece rangelist_add
add_piece_lem blk capacity rg st v le = elim (Bool-cases (alloc st.mem).0) [
  | inl g ↦
      let next : Adding = record st {
        blk_rangelist = st.blk_rangelist ++ rg ∷ [];
        current_blk_size = st.current_blk_size + rg.cnt;
        mem = (alloc st.mem).1;
      } in
      let e : add_piece blk capacity rg st ≡ close_block blk capacity next = rw g refl in
      let laid : laid_out next ≡ laid_out st ++ run rg.ofs rg.cnt =
        ap (◌++◌ (block_sectors (descriptors st.pool.head)))
          (sectors-append_one st.blk_rangelist rg)
        ∙ sym (
            append_assoc (block_sectors (descriptors st.pool.head)) (sectors st.blk_rangelist)
              (run rg.ofs rg.cnt)) in
      subst (λ xs. Lays blk xs (add_piece blk capacity rg st)) laid
        (subst (Lays blk (laid_out next)) (sym e) (
          close_block_lem blk capacity next (omega (arith, v.not_full)) v.pool_valid v.whole
            (omega (arith, v.size_is, total-append_one st.blk_rangelist rg))
            (omega (arith, le, v.not_full))))
  | inr g ↦ inr (rw g refl)
]
