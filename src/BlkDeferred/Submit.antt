-- ===== src/BlkDeferred/Submit.antt =====
-- The submission of pages: what is transferred is one run of sectors.
use mathlib.Core.Path.{ap₂}
use mathlib.Core.List.{append_assoc}
use veeamsnap.Prelude.{
  ℕ, zero, suc, ◌+◌, ◌-◌, ◌*◌, ◌<◌, ◌≤◌, ◌≡◌, refl, ap, ◌∙◌, false, some, ◌++◌, ltb, ◌==◌,
  Bool-cases, inl, inr, arith,
}
use veeamsnap.BlkDeferred.{Transfer, segment, Bios, submit_portion, submit_loop, submit_pages}
use veeamsnap.BlkDeferred.Portion.{segment-append, submit_portion_lem, Calm, submit_portion-all}

submit_loop_lem :
    (fuel spp arr_ofs pg_cnt ofs size process : ℕ) (io : Bios)
    → 0 < spp
    → process ≤ size
    → size - process < fuel
    → arr_ofs + size ≤ pg_cnt * spp
    → (n : ℕ) × (io' : Bios) × (submit_loop fuel spp arr_ofs pg_cnt ofs size process io
        ≡ some (n, io'))
      × (process ≤ n)
      × (n ≤ size)
      × (io'.sent ≡ io.sent ++ segment (ofs + process) (arr_ofs + process) (n - process))
unfolding submit_loop
submit_loop_lem zero spp arr_ofs pg_cnt ofs size process io pos le f room = absurd (omega arith)
submit_loop_lem (suc fuel) spp arr_ofs pg_cnt ofs size process io pos le f room =
    let (k, io1, e1, le1, sent1) =
      submit_portion_lem spp (arr_ofs + process) pg_cnt (ofs + process) (size - process) io pos
        (omega arith) in
    let done : ℕ = process + k in
    let o : ℕ = ofs + process in
    let a : ℕ = arr_ofs + process in
    elim (Bool-cases (k == 0)) [
      | inl none_done ↦
          let z : process - process ≡ k = ground arith in
          (process, io1, rw (e1, submit_loop) (rw none_done refl), omega arith, le, rw z sent1)
      | inr some_done ↦ elim (Bool-cases (ltb done size)) [
        | inr last ↦
            let z : done - process ≡ k = omega arith in
            (
              done,
              io1,
              rw (e1, submit_loop) (rw (some_done, last) refl),
              omega arith,
              omega (arith, le1),
              rw z sent1,
            )
        | inl more ↦
            let (n, io', e, ge, le', sent) =
              submit_loop_lem fuel spp arr_ofs pg_cnt ofs size done io1 pos (omega (arith, le1))
                (ground arith) room in
            let o' : ofs + done ≡ o + k = omega arith in
            let a' : arr_ofs + done ≡ a + k = omega arith in
            (
              n,
              io',
              rw (e1, submit_loop) (rw (some_done, more) e),
              omega (arith, ge),
              le',
              sent
                  ∙ ap₂ ◌++◌ sent1 (ap₂ (λ (x y : ℕ). segment x y (n - done)) o' a')
                  ∙ append_assoc io.sent (segment o a k) (segment (o + k) (a + k) (n - done))
                  ∙ ap (λ (t : Transfer). io.sent ++ t)
                      (segment-append k (n - done) o a ∙ ap (segment o a) (omega (arith, ge))),
            )
      ]
    ]

-- `blk_deferred_submit_pages` of sectors that the pages of the array hold, whatever is refused: it returns,
-- without the BUG_ON of a page behind the array, with n sectors processed, no more than asked for, and
-- what it submitted in its bios is the first n sectors, each with its sector of the array.
pub submit_pages_lem :
    (spp arr_ofs pg_cnt ofs size : ℕ) (io : Bios)
    → 0 < spp
    → arr_ofs + size ≤ pg_cnt * spp
    → (n : ℕ) × (io' : Bios) × (submit_pages spp arr_ofs pg_cnt ofs size io ≡ some (n, io'))
      × (n ≤ size)
      × (io'.sent ≡ io.sent ++ segment ofs arr_ofs n)
unfolding submit_pages
submit_pages_lem spp arr_ofs pg_cnt ofs size io pos room =
    let (n, io', e, ge, le, sent) =
      submit_loop_lem (suc size) spp arr_ofs pg_cnt ofs size 0 io pos (omega arith) (omega arith)
        room in
    (
      n,
      io',
      e,
      le,
      sent
          ∙ ap (λ (t : Transfer). io.sent ++ t)
              (ap₂ (λ (x y : ℕ). segment x y (n - 0)) (omega arith) (omega arith)
                ∙ ap (segment ofs arr_ofs) (omega arith)),
    )

-- Where nothing is refused the whole size is processed, by one bio.
pub submit_pages-all :
    (spp arr_ofs pg_cnt ofs size : ℕ) (io : Bios)
    → 0 < spp
    → 0 < size
    → arr_ofs + size ≤ pg_cnt * spp
    → Calm io
    → (io' : Bios) × (submit_pages spp arr_ofs pg_cnt ofs size io ≡ some (size, io'))
      × (io'.sent ≡ io.sent ++ segment ofs arr_ofs size)
      × Calm io'
unfolding submit_pages submit_loop
submit_pages-all spp arr_ofs pg_cnt ofs size io pos some_size inside calm =
    let a0 : arr_ofs + 0 ≡ arr_ofs = omega arith in
    let o0 : ofs + 0 ≡ ofs = omega arith in
    let s0 : size - 0 ≡ size = omega arith in
    let (io', e, sent, calm') =
      submit_portion-all spp arr_ofs pg_cnt ofs size io pos some_size inside calm in
    let d0 : 0 + size ≡ size = omega arith in
    let some_done : size == 0 ≡ false = ground arith in
    let last : ltb size size ≡ false = ground arith in
    let e0 : submit_portion spp (arr_ofs + 0) pg_cnt (ofs + 0) (size - 0) io ≡ some (size, io') =
      rw (a0, o0, s0) e in
    (io', rw (e0, submit_loop) (rw (some_done, d0, last) refl), sent, calm')
