-- ===== src/BlkDescrPool/Laws.antt =====
-- The pool of blk_descr_pool.c is a queue.
use veeamsnap.Prelude.{
  ℕ, zero, suc, ◌+◌, ◌-◌, ◌*◌, ◌/◌, ◌<◌, ◌≤◌, ◌≡◌, refl, sym, ap, ◌∙◌, inl, inr, Bool, true, false,
  ◌||◌, Option, none, some, List, [], ◌∷◌, ◌++◌, ltb, leb, if◌then◌else◌, Bool-cases, length,
  length-append, get_elem?, get_elem?-beyond, success, enomem, Memory, alloc, arith,
}
use mathlib.Core.List.{append_assoc, append-nil}
use veeamsnap.Prelude.Word.{word}
use veeamsnap.Range.{get_elem?-append_left, get_elem?-append_right}
use veeamsnap.BlkDescrPool.{
  PoolEl, Pool, last_has_room, add_to_last, new_el, pool_alloc, pool_at_from, took, pool_take,
  check_halffill,
}

module _ {D : Type 0} where
  -- The descriptors of a pool, in the order in which they were added.
  abbrev pub descriptors : List (PoolEl D) → List D
  descriptors [] = []
  descriptors (el ∷ els) = el.blocks ++ descriptors els

  -- `available` more are announced than were added; no more are taken than were added; the elements
  -- are counted.
  pub record IsValid (available : ℕ) (pool : Pool D) : Type 0 where
    pub total_is : pool.total_cnt ≡ available + length (descriptors pool.head)
    pub taken : pool.take_cnt ≤ length (descriptors pool.head)
    pub elements : pool.blocks_cnt ≡ length pool.head

  add_to_last-descriptors :
      (el : PoolEl D) (els : List (PoolEl D)) (d : D)
      → (descriptors (add_to_last (el ∷ els) d) ≡ descriptors (el ∷ els) ++ d ∷ [])
        × (length (add_to_last (el ∷ els) d) ≡ length (el ∷ els))
  unfolding add_to_last
  add_to_last-descriptors el [] d =
      (rw (append-nil el.blocks, append-nil (el.blocks ++ d ∷ [])) refl, refl)
  add_to_last-descriptors el (el' ∷ els) d =
      let rest = add_to_last-descriptors el' els d in
      (
        ap (◌++◌ el.blocks) rest.0
            ∙ sym (append_assoc el.blocks (descriptors (el' ∷ els)) (d ∷ [])),
        ap suc rest.1,
      )

  pool_at_from-get_elem? :
      (els : List (PoolEl D)) (curr index : ℕ)
      → curr ≤ index
      → pool_at_from els curr index ≡ get_elem? (descriptors els) (index - curr)
  unfolding pool_at_from
  pool_at_from-get_elem? [] curr index h = sym (get_elem?-beyond [] (index - curr) (omega arith))
  pool_at_from-get_elem? (el ∷ els) curr index h =
      elim (Bool-cases (ltb index (curr + length el.blocks))) [
        | inl y ↦
            let inside : index - curr < length el.blocks = ground arith in
            ground (arith, y)
            ∙ sym (get_elem?-append_left el.blocks (descriptors els) (index - curr) inside)
        | inr n ↦
            let past : curr + length el.blocks ≤ index = ground arith in
            let split : index - curr ≡ length el.blocks + (index - (curr + length el.blocks)) =
              omega arith in
            ground (arith, n)
            ∙ pool_at_from-get_elem? els (curr + length el.blocks) index past
            ∙ sym (
                get_elem?-append_right el.blocks (descriptors els)
                  (index - (curr + length el.blocks)))
            ∙ ap (get_elem? (el.blocks ++ descriptors els)) (sym split)
      ]

  descriptors-append :
      (els : List (PoolEl D)) (el : PoolEl D)
      → el.blocks ≡ []
      → (descriptors (els ++ el ∷ []) ≡ descriptors els)
  descriptors-append [] el e = ap (λ bs. bs ++ []) e
  descriptors-append (el' ∷ els) el e = ap (◌++◌ el'.blocks) (descriptors-append els el e)

  -- With an element behind, the list is not empty.
  grown-descriptors :
      (els : List (PoolEl D)) (el : PoolEl D) (d : D)
      → el.blocks ≡ []
      → (descriptors (add_to_last (els ++ el ∷ []) d) ≡ descriptors els ++ d ∷ [])
        × (length (add_to_last (els ++ el ∷ []) d) ≡ suc (length els))
  grown-descriptors [] el d e =
      let put = add_to_last-descriptors el [] d in
      (put.0 ∙ ap (λ ds. ds ++ d ∷ []) (ap (λ bs. bs ++ []) e), put.1)
  grown-descriptors (el' ∷ els) el d e =
      let put = add_to_last-descriptors el' (els ++ el ∷ []) d in
      (
        put.0 ∙ ap (λ ds. ds ++ d ∷ []) (descriptors-append (el' ∷ els) el e),
        put.1 ∙ length-append (el' ∷ els) (el ∷ []) ∙ omega arith,
      )

  added-IsValid :
      (available : ℕ) (pool : Pool D) (d : D) (els : List (PoolEl D)) (cnt : ℕ)
      → IsValid available pool
      → descriptors els ≡ descriptors pool.head ++ d ∷ []
      → cnt ≡ length els
      → IsValid available
          (record pool { head = els; blocks_cnt = cnt; total_cnt = pool.total_cnt + 1 })
  added-IsValid available pool d els cnt v e n =
      let longer : length (descriptors els) ≡ length (descriptors pool.head) + 1 =
        ap (λ ds. length ds) e ∙ length-append (descriptors pool.head) (d ∷ []) in
      record {
        total_is = omega (arith, v.total_is, longer);
        taken = omega (arith, v.taken, longer);
        elements = n;
      }

  -- Adding to a valid pool keeps it valid and puts the descriptor behind the others; where the allocation of an element is
  -- refused the pool is as before.
  pub pool_alloc_lem :
      (capacity available : ℕ) (pool : Pool D) (d : D) (mem : Memory)
      → IsValid available pool
      → let r = pool_alloc capacity pool d mem in
        IsValid available r.1
        × (r.0 ≡ (if last_has_room pool.head || (alloc mem).0 then success else enomem))
        × (descriptors r.1.head ≡ (
            if last_has_room pool.head || (alloc mem).0
            then descriptors pool.head ++ d ∷ []
            else descriptors pool.head))
        × (r.1.take_cnt ≡ pool.take_cnt)
  unfolding pool_alloc last_has_room
  pool_alloc_lem capacity available pool d mem v = elim (Bool-cases (last_has_room pool.head)) [
    | inl room ↦ rw room (
      added-IsValid available pool d (add_to_last pool.head d) pool.blocks_cnt v
          (roomy pool.head room).0 (v.elements ∙ sym (roomy pool.head room).1),
      refl,
      (roomy pool.head room).0,
      refl,
    )
    | inr full ↦ rw full (elim (Bool-cases (alloc mem).0) [
      | inl y ↦ rw y (
        added-IsValid available pool d (add_to_last (pool.head ++ new_el capacity ∷ []) d)
            (pool.blocks_cnt + 1) v grown.0 (omega (arith, v.elements, grown.1)),
        refl,
        grown.0,
        refl,
      )
      | inr n ↦ rw n (v, refl, refl, refl)
    ])
  ]
    where
      grown :
          (descriptors (add_to_last (pool.head ++ new_el capacity ∷ []) d)
            ≡ descriptors pool.head ++ d ∷ [])
          × (length (add_to_last (pool.head ++ new_el capacity ∷ []) d) ≡ suc (length pool.head))
      grown = grown-descriptors pool.head (new_el capacity) d refl

      roomy :
          (els : List (PoolEl D))
          → last_has_room els ≡ true
          → (descriptors (add_to_last els d) ≡ descriptors els ++ d ∷ [])
            × (length (add_to_last els d) ≡ length els)
      roomy [] e = absurd (ground arith)
      roomy (el ∷ els) e = add_to_last-descriptors el els d

  abbrev is_some : Option D → Bool
  is_some none = false
  is_some (some d) = true

  get_elem?-is_some : (xs : List D) (i : ℕ) → is_some (get_elem? xs i) ≡ ltb i (length xs)
  get_elem?-is_some [] i = ground arith
  get_elem?-is_some (x ∷ xs) zero = ground arith
  get_elem?-is_some (x ∷ xs) (suc i) = get_elem?-is_some xs i ∙ ground arith

  -- From a valid pool the descriptors are given out in the order in which they were added, each once; none is given
  -- where all were.
  pub pool_take_lem :
      (available : ℕ) (pool : Pool D)
      → IsValid available pool
      → let r = pool_take pool in
        IsValid available r.1
        × (r.0 ≡ get_elem? (descriptors pool.head) pool.take_cnt)
        × (r.1.head ≡ pool.head)
        × (r.1.take_cnt ≡ (
            if ltb pool.take_cnt (length (descriptors pool.head))
            then pool.take_cnt + 1
            else pool.take_cnt))
  unfolding pool_take took
  pool_take_lem available pool v = elim (Bool-cases (leb pool.total_cnt pool.take_cnt)) [
    | inl y ↦ rw y (
      v,
      sym (get_elem?-beyond (descriptors pool.head) pool.take_cnt (ground (arith, y, v.total_is))),
      refl,
      ground (arith, y, v.total_is),
    )
    | inr n ↦ rw n (
        go (pool_at_from pool.head 0 pool.take_cnt) (
          pool_at_from-get_elem? pool.head 0 pool.take_cnt (omega arith)
          ∙ ap (get_elem? (descriptors pool.head)) (omega arith)))
  ]
    where
      go :
          (found : Option D)
          → found ≡ get_elem? (descriptors pool.head) pool.take_cnt
          → let r = took pool found in
            IsValid available r.1
            × (r.0 ≡ get_elem? (descriptors pool.head) pool.take_cnt)
            × (r.1.head ≡ pool.head)
            × (r.1.take_cnt ≡ (
                if ltb pool.take_cnt (length (descriptors pool.head))
                then pool.take_cnt + 1
                else pool.take_cnt))
      go none e =
          let past = ap is_some e ∙ get_elem?-is_some (descriptors pool.head) pool.take_cnt in
          (v, e, refl, ground (arith, past))
      go (some d) e =
          let inside = ap is_some e ∙ get_elem?-is_some (descriptors pool.head) pool.take_cnt in
          (
            record { total_is = v.total_is; taken = ground (arith, inside); elements = v.elements },
            e,
            refl,
            ground (arith, inside),
          )

  -- `blk_descr_pool_check_halffill`: the pool is to be extended when the descriptors not yet taken,
  -- the announced ones included, are fewer than the limit's blocks.
  pub check_halffill_lem :
      (blk_size available empty_limit : ℕ) (pool : Pool D)
      → IsValid available pool
      → pool.total_cnt < word
      → check_halffill blk_size pool empty_limit ≡ (
        ltb (available + length (descriptors pool.head)) (pool.take_cnt + empty_limit / blk_size),
        pool.take_cnt * blk_size,
      )
  unfolding check_halffill
  check_halffill_lem blk_size available empty_limit pool v h =
      ap (λ (b : Bool). (b, pool.take_cnt * blk_size)) (ground (arith, v.total_is, v.taken, h))
