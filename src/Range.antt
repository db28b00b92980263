-- ===== src/Range.antt =====
-- source/range.h: runs of sectors, and the sectors that a list of runs stands for.
use mathlib.Core.Path.{ap₂}
use veeamsnap.Prelude.{
  ℕ, zero, suc, ◌+◌, ◌-◌, ◌<◌, ◌≤◌, ◌≡◌, refl, ap, ◌∙◌, Bool, some, List, [], ◌∷◌, ◌++◌, ◌==◌,
  length, get_elem?, length-append, arith, take, drop,
}

-- `range_t`
pub record Range : Type 0 where
  pub ofs : ℕ
  pub cnt : ℕ

-- `range_empty`
abbrev pub range_empty : Range
range_empty = record { ofs = 0; cnt = 0 }

-- `range_is_empty`
abbrev pub range_is_empty : Range → Bool
range_is_empty rg = rg.cnt == 0

-- The sectors from `ofs` on, `cnt` of them.
abbrev pub run : ℕ → ℕ → List ℕ
run ofs zero = []
run ofs (suc cnt) = ofs ∷ run (ofs + 1) cnt

-- The sectors of the ranges, one range after the other.
abbrev pub sectors : List Range → List ℕ
sectors [] = []
sectors (rg ∷ rgs) = run rg.ofs rg.cnt ++ sectors rgs

-- How many sectors the ranges have.
abbrev pub total : List Range → ℕ
total [] = 0
total (rg ∷ rgs) = rg.cnt + total rgs

pub length-run : (ofs cnt : ℕ) → length (run ofs cnt) ≡ cnt
length-run ofs zero = refl
length-run ofs (suc cnt) = ap suc (length-run (ofs + 1) cnt)

pub length-sectors : (rgs : List Range) → length (sectors rgs) ≡ total rgs
length-sectors [] = refl
length-sectors (rg ∷ rgs) = omega (
  arith,
  length-append (run rg.ofs rg.cnt) (sectors rgs),
  length-run rg.ofs rg.cnt,
  length-sectors rgs,
)

pub get_elem?-append_left {ℓ} :
    {A : Type ℓ} (xs ys : List A) (i : ℕ) → i < length xs → get_elem? (xs ++ ys) i ≡ get_elem? xs i
get_elem?-append_left [] ys i h = absurd (omega arith)
get_elem?-append_left (x ∷ xs) ys zero h = refl
get_elem?-append_left (x ∷ xs) ys (suc i) h = get_elem?-append_left xs ys i (omega arith)

pub get_elem?-append_right {ℓ} :
    {A : Type ℓ} (xs ys : List A) (i : ℕ) → get_elem? (xs ++ ys) (length xs + i) ≡ get_elem? ys i
get_elem?-append_right [] ys i = ap (get_elem? ys) (omega arith)
get_elem?-append_right (x ∷ xs) ys i =
    let e : suc (length xs) + i ≡ suc (length xs + i) = omega arith in
    rw e (get_elem?-append_right xs ys i)

pub get_elem?-run : (ofs cnt i : ℕ) → i < cnt → get_elem? (run ofs cnt) i ≡ some (ofs + i)
get_elem?-run ofs zero i h = absurd (omega arith)
get_elem?-run ofs (suc cnt) zero h = ap some (omega arith)
get_elem?-run ofs (suc cnt) (suc i) h =
    get_elem?-run (ofs + 1) cnt i (omega arith) ∙ ap some (omega arith)

-- The i-th sector of the first range.
pub sectors_first :
    (rg : Range) (rgs : List Range) (i : ℕ)
    → i < rg.cnt
    → get_elem? (sectors (rg ∷ rgs)) i ≡ some (rg.ofs + i)
sectors_first rg rgs i h =
    get_elem?-append_left (run rg.ofs rg.cnt) (sectors rgs) i (rw (length-run rg.ofs rg.cnt) h)
    ∙ get_elem?-run rg.ofs rg.cnt i h

-- A sector past the first range.
pub sectors_rest :
    (rg : Range) (rgs : List Range) (i : ℕ)
    → rg.cnt ≤ i
    → get_elem? (sectors (rg ∷ rgs)) i ≡ get_elem? (sectors rgs) (i - rg.cnt)
sectors_rest rg rgs i h =
    let e : i ≡ length (run rg.ofs rg.cnt) + (i - rg.cnt) =
      omega (arith, length-run rg.ofs rg.cnt) in
    ap (get_elem? (sectors (rg ∷ rgs))) e
    ∙ get_elem?-append_right (run rg.ofs rg.cnt) (sectors rgs) (i - rg.cnt)

pub drop-run :
    (i ofs cnt : ℕ) (xs : List ℕ)
    → i ≤ cnt
    → drop i (run ofs cnt ++ xs) ≡ run (ofs + i) (cnt - i) ++ xs
drop-run zero ofs cnt xs h = ap₂ (λ (a b : ℕ). run a b ++ xs) (omega arith) (omega arith)
drop-run (suc i) ofs zero xs h = absurd (omega arith)
drop-run (suc i) ofs (suc cnt) xs h =
    drop-run i (ofs + 1) cnt xs (omega arith)
    ∙ ap₂ (λ (a b : ℕ). run a b ++ xs) (omega arith) (omega arith)

pub take-run : (n ofs cnt : ℕ) (xs : List ℕ) → n ≤ cnt → take n (run ofs cnt ++ xs) ≡ run ofs n
take-run zero ofs cnt xs h = refl
take-run (suc n) ofs zero xs h = absurd (omega arith)
take-run (suc n) ofs (suc cnt) xs h = ap (◌∷◌ ofs) (take-run n (ofs + 1) cnt xs (omega arith))

-- The n sectors of the first range from its i-th on.
pub sectors_window :
    (rg : Range) (rgs : List Range) (i n : ℕ)
    → i + n ≤ rg.cnt
    → take n (drop i (sectors (rg ∷ rgs))) ≡ run (rg.ofs + i) n
sectors_window rg rgs i n h =
    ap (take n) (drop-run i rg.ofs rg.cnt (sectors rgs) (omega arith))
    ∙ take-run n (rg.ofs + i) (rg.cnt - i) (sectors rgs) (omega arith)

-- What is left of the sectors past the first range.
pub sectors_past :
    (rg : Range) (rgs : List Range) (i : ℕ)
    → rg.cnt ≤ i
    → drop i (sectors (rg ∷ rgs)) ≡ drop (i - rg.cnt) (sectors rgs)
sectors_past rg rgs i h = past rg.ofs rg.cnt i h
  where
    past :
        (ofs cnt i : ℕ)
        → cnt ≤ i
        → drop i (run ofs cnt ++ sectors rgs) ≡ drop (i - cnt) (sectors rgs)
    past ofs zero i h = ap (λ (k : ℕ). drop k (sectors rgs)) (omega arith)
    past ofs (suc cnt) zero h = absurd (omega arith)
    past ofs (suc cnt) (suc i) h =
        past (ofs + 1) cnt i (omega arith) ∙ ap (λ (k : ℕ). drop k (sectors rgs)) (omega arith)
