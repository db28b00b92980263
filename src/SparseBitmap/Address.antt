-- ===== src/SparseBitmap/Address.antt =====
-- Which indices share a bit of a block of sparse_bitmap.c: those equal modulo its capacity.
use veeamsnap.Prelude.{
  ℕ, zero, suc, ◌+◌, ◌*◌, ◌/◌, ◌%◌, ◌^◌, ◌<◌, ◌≡◌, ◌↔◌, refl, sym, ◌∙◌, ap, true, arith, ==_iff,
}
use native.Mathlib.Nat.{
  pow-suc, mul-add-div_right, one-le-pow, div-add-mod, mod-eq-sub-mul-div, div-div-eq-div-mul,
  mod-lt, div-eq_of_lt,
}
use veeamsnap.SparseBitmap.{inx_at}
use veeamsnap.SparseBitmap.Level.{same}

-- The bits of a block of level l.
abbrev pub capacity : ℕ → ℕ
capacity l = 64 ^ suc l

pub pow_of_level : (l : ℕ) → 2 ^ (6 * l) ≡ 64 ^ l
pow_of_level zero = refl
pow_of_level (suc l) =
    rw (e, pow-suc, pow-suc, pow-suc, pow-suc, pow-suc, pow-suc, pow-suc)
      (omega (arith, pow_of_level l))
  where
    e : 6 * suc l ≡ suc (suc (suc (suc (suc (suc (6 * l))))))
    e = omega arith

pub pow64_pos : (l : ℕ) → 0 < 64 ^ l
pow64_pos l = one-le-pow l 64 (omega arith)

mod_split : (i p : ℕ) → 0 < p → i % (p * 64) ≡ (i / p % 64) * p + i % p
mod_split i p h = omega (
  arith,
  mod-eq-sub-mul-div i (p * 64),
  ap (λ (t : ℕ). p * 64 * t) (sym (div-div-eq-div-mul i p 64)),
  div-add-mod i p,
  ap (λ (t : ℕ). p * t) (div-add-mod (i / p) 64),
)

digit : (p a r : ℕ) → 0 < p → r < p → (a * p + r) / p ≡ a
digit p a r h lt = omega (arith, mul-add-div_right h a r, div-eq_of_lt lt)

digits_eq : (p a b r s : ℕ) → 0 < p → r < p → s < p → a * p + r ≡ b * p + s → (a ≡ b) × (r ≡ s)
digits_eq p a b r s h lt lt' e =
    let first : a ≡ b =
      omega (arith, digit p a r h lt, digit p b s h lt', ap (λ (t : ℕ). t / p) e) in
    (first, omega (arith, ap (λ (t : ℕ). t * p) first))

-- Two indices share a bit exactly when they are equal modulo the capacity.
pub same_iff : (l i j : ℕ) → (same l i j ≡ true) ↔ (i % capacity l ≡ j % capacity l)
same_iff zero i j = ==_iff (i % 64) (j % 64)
same_iff (suc l) i j = (
  λ h. ground (
    arith,
    split i,
    split j,
    (same_iff l i j).0,
    ==_iff (inx_at (suc l) i) (inx_at (suc l) j),
    ap (λ (t : ℕ). t * p) {x = inx_at (suc l) i} {y = inx_at (suc l) j},
  ),
  λ h.
      let both : (inx_at (suc l) i ≡ inx_at (suc l) j) × (i % p ≡ j % p) =
        digits_eq p (inx_at (suc l) i) (inx_at (suc l) j) (i % p) (j % p) (pow64_pos (suc l))
          (mod-lt i (pow64_pos (suc l))) (mod-lt j (pow64_pos (suc l)))
          (sym (split i) ∙ h ∙ split j) in
      ground (arith, both, (same_iff l i j).1),
)
  where
    p : ℕ
    p = 64 ^ suc l

    split : (k : ℕ) → k % capacity (suc l) ≡ inx_at (suc l) k * p + k % p
    split k = rw (pow-suc 64 (suc l), pow_of_level (suc l)) (mod_split k p (pow64_pos (suc l)))
