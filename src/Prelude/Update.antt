-- ===== src/Prelude/Update.antt =====
-- Writing one item of a list, with the laws of reading, of length, of `All` and of counting.
use Prim.Native.Nat.{ℕ, zero, suc, ◌+◌, ◌<◌, ◌≤◌}
use mathlib.Core.Path.{◌≡◌, refl, ap}
use mathlib.Core.Bool.{Bool, true, false}
use mathlib.Core.List.{List, [], ◌∷◌}
use native.Mathlib.Omega.{arith}
use veeamsnap.Prelude.Lists.{length, get_or, All, replicate}
use veeamsnap.Prelude.Tests.{◌==◌, if◌then◌else◌}

module _ {ℓ} {A : Type ℓ} where
  -- A write out of bounds changes nothing.
  abbrev pub set : List A → ℕ → A → List A
  set [] i v = []
  set (x ∷ xs) zero v = v ∷ xs
  set (x ∷ xs) (suc i) v = x ∷ set xs i v

  pub length-set : (xs : List A) (i : ℕ) (v : A) → length (set xs i v) ≡ length xs
  length-set [] i v = refl
  length-set (x ∷ xs) zero v = refl
  length-set (x ∷ xs) (suc i) v = ap suc (length-set xs i v)

  pub get_or-set :
      (xs : List A) (i j : ℕ) (v d : A)
      → i < length xs
      → get_or (set xs i v) j d ≡ (if i == j then v else get_or xs j d)
  get_or-set [] i j v d h = absurd (omega arith)
  get_or-set (x ∷ xs) zero zero v d h = refl
  get_or-set (x ∷ xs) zero (suc j) v d h = ground arith
  get_or-set (x ∷ xs) (suc i) zero v d h = ground arith
  get_or-set (x ∷ xs) (suc i) (suc j) v d h = ground (arith, get_or-set xs i j v d)

  pub All-set {κ} :
      (P : A → Type κ) (xs : List A) (i : ℕ) (v : A) → All P xs → P v → All P (set xs i v)
  All-set P [] i v h p = h
  All-set P (x ∷ xs) zero v h p = (p, h.1)
  All-set P (x ∷ xs) (suc i) v h p = (h.0, All-set P xs i v h.1 p)

  pub All-replicate {κ} : (P : A → Type κ) (n : ℕ) (a : A) → P a → All P (replicate n a)
  All-replicate P zero a p = tt
  All-replicate P (suc n) a p = (p, All-replicate P n a p)

  -- How many items pass a test.
  abbrev pub count : (A → Bool) → List A → ℕ
  count p [] = 0
  count p (x ∷ xs) = (if p x then 1 else 0) + count p xs

  pub count-set :
      (p : A → Bool) (xs : List A) (i : ℕ) (v d : A)
      → i < length xs
      → count p (set xs i v) + (if p (get_or xs i d) then 1 else 0)
        ≡ count p xs + (if p v then 1 else 0)
  count-set p [] i v d h = absurd (omega arith)
  count-set p (x ∷ xs) zero v d h = omega arith
  count-set p (x ∷ xs) (suc i) v d h = omega (arith, count-set p xs i v d (omega arith))

  pub count-le : (p : A → Bool) (xs : List A) → count p xs ≤ length xs
  count-le p [] = omega arith
  count-le p (x ∷ xs) = ground (arith, count-le p xs)

  -- A full count: every item passes.
  pub count-full :
      (p : A → Bool) (xs : List A) (i : ℕ) (d : A)
      → count p xs ≡ length xs
      → i < length xs
      → p (get_or xs i d) ≡ true
  count-full p [] i d e h = absurd (omega arith)
  count-full p (x ∷ xs) zero d e h = ground (arith, count-le p xs)
  count-full p (x ∷ xs) (suc i) d e h = ground (arith, count-le p xs, count-full p xs i d)

  -- A zero count: no item passes.
  pub count-none :
      (p : A → Bool) (xs : List A) (i : ℕ) (d : A)
      → count p xs ≡ 0
      → i < length xs
      → p (get_or xs i d) ≡ false
  count-none p [] i d e h = absurd (omega arith)
  count-none p (x ∷ xs) zero d e h = ground arith
  count-none p (x ∷ xs) (suc i) d e h = ground (arith, count-none p xs i d)

  pub count-replicate :
      (p : A → Bool) (n : ℕ) (a : A) → count p (replicate n a) ≡ (if p a then n else 0)
  count-replicate p zero a = ground arith
  count-replicate p (suc n) a = ground (arith, count-replicate p n a)

  -- Where one test implies another, its count is no larger.
  pub count_mono :
      (p q : A → Bool) (xs : List A) → ((a : A) → p a ≡ true → q a ≡ true) → count p xs ≤ count q xs
  count_mono p q [] h = omega arith
  count_mono p q (x ∷ xs) h = ground (arith, h x, count_mono p q xs h)
