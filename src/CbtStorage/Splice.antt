-- ===== src/CbtStorage/Splice.antt =====
-- Lists that are taken, dropped and written over.
use veeamsnap.Prelude.{
  ℕ, zero, suc, ◌+◌, ◌≤◌, ◌≡◌, refl, sym, ap, ◌∙◌, List, [], ◌∷◌, ◌++◌, length, take, drop, arith,
  length-append, length-take, length-drop,
}
use veeamsnap.CbtStorage.{splice}

take-append {ℓ} : {A : Type ℓ} (xs ys : List A) → take (length xs) (xs ++ ys) ≡ xs
take-append [] ys = refl
take-append (x ∷ xs) ys = ap (◌∷◌ x) (take-append xs ys)

-- Taking in two steps.
pub take-take-drop {ℓ} :
    {A : Type ℓ} (m n : ℕ) (xs : List A) → take m xs ++ take n (drop m xs) ≡ take (m + n) xs
take-take-drop zero n xs = ap (λ (i : ℕ). take i xs) (omega arith)
take-take-drop {A} (suc m) n [] = nothing n (suc m + n)
  where
    nothing : (i j : ℕ) → [] ++ take i [] ≡ take {A = A} j []
    nothing zero zero = refl
    nothing zero (suc j) = refl
    nothing (suc i) zero = refl
    nothing (suc i) (suc j) = refl
take-take-drop (suc m) n (x ∷ xs) =
    let e : suc m + n ≡ suc (m + n) = omega arith in
    ap (◌∷◌ x) (take-take-drop m n xs) ∙ sym (ap (λ (i : ℕ). take i (x ∷ xs)) e)

pub length-splice :
    (buff : List ℕ) (ofs : ℕ) (bytes : List ℕ)
    → ofs + length bytes ≤ length buff
    → length (splice buff ofs bytes) ≡ length buff
length-splice buff ofs bytes h = omega (
  arith,
  length-append (take ofs buff ++ bytes) (drop (ofs + length bytes) buff),
  length-append (take ofs buff) bytes,
  length-take ofs buff,
  length-drop (ofs + length bytes) buff,
)

pub take-splice :
    (buff : List ℕ) (ofs : ℕ) (bytes : List ℕ) (n : ℕ)
    → ofs ≤ length buff
    → n ≡ ofs + length bytes
    → take n (splice buff ofs bytes) ≡ take ofs buff ++ bytes
take-splice buff ofs bytes n h e =
    let len : n ≡ length (take ofs buff ++ bytes) =
      omega (arith, length-append (take ofs buff) bytes, length-take ofs buff) in
    ap (λ (i : ℕ). take i (splice buff ofs bytes)) len
    ∙ take-append (take ofs buff ++ bytes) (drop (ofs + length bytes) buff)

-- The data of the pages 0 to n - 1.
