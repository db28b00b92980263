-- ===== src/Snapstore/Border.antt =====
-- `snapstore_order_border` of snapstore.c.
use native.Mathlib.Nat.{div-add-mod, mod-lt}
use veeamsnap.Prelude.{
  ℕ, ◌+◌, ◌*◌, ◌/◌, ◌%◌, ◌<◌, ◌≤◌, ◌≡◌, ◌==◌, Bool-cases, inl, inr, ==_iff, arith,
}
use veeamsnap.Range.{Range}
use veeamsnap.Snapstore.{order_border}

-- The range is widened to whole blocks, by less than a block on each side.
pub order_border_lem :
    (blk : ℕ) (rg : Range)
    → 0 < blk
    → let out = order_border blk rg in
      (out.ofs ≤ rg.ofs)
      × (rg.ofs < out.ofs + blk)
      × (rg.ofs + rg.cnt ≤ out.ofs + out.cnt)
      × (out.ofs + out.cnt < rg.ofs + rg.cnt + blk)
      × (out.ofs ≡ blk * (rg.ofs / blk))
      × ((k : ℕ) × (out.cnt ≡ blk * k))
unfolding order_border
order_border_lem blk rg pos =
    let o : ℕ = rg.ofs % blk in
    let cnt : ℕ = rg.cnt + o in
    let ofs_split = div-add-mod rg.ofs blk in
    let cnt_split = div-add-mod cnt blk in
    let o_lt = mod-lt rg.ofs pos in
    let c_lt = mod-lt cnt pos in
    elim (Bool-cases (cnt % blk == 0)) [
      | inl e ↦
          let z = (==_iff (cnt % blk) 0).0 e in
          rw e (
            omega arith,
            omega (arith, ofs_split, o_lt),
            omega (arith, ofs_split),
            omega (arith, ofs_split, o_lt),
            omega (arith, ofs_split),
            (cnt / blk, omega (arith, cnt_split, z)),
          )
      | inr e ↦
          let nz : 0 < cnt % blk = ground (arith, e) in
          rw e (
            omega arith,
            omega (arith, ofs_split, o_lt),
            omega (arith, ofs_split, c_lt),
            omega (arith, ofs_split, o_lt, c_lt, nz),
            omega (arith, ofs_split),
            (cnt / blk + 1, omega (arith, cnt_split, c_lt)),
          )
    ]
