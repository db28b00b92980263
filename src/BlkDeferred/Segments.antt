-- ===== src/BlkDeferred/Segments.antt =====
-- The sectors that a transfer copies, and what is in them afterwards.
use veeamsnap.Prelude.{
  ℕ, zero, suc, ◌+◌, ◌<◌, ◌≡◌, ◌≢◌, refl, ap, ◌∙◌, true, false, List, [], ◌∷◌, ◌++◌, ◌==◌, ==_iff,
  if◌then◌else◌, length, get_or, All, arith,
}
use veeamsnap.Range.{run}
use veeamsnap.BlkDeferred.{Transfer, segment}

-- A read into the pages, and a write out of them: what the bios do to the contents of the sectors.
pub fill : Transfer → (ℕ → ℕ) → (ℕ → ℕ) → ℕ → ℕ
fill [] dev buff = buff
fill ((d, b) ∷ t) dev buff = fill t dev (λ i. if i == b then dev d else buff i)

pub spill : Transfer → (ℕ → ℕ) → (ℕ → ℕ) → ℕ → ℕ
spill [] buff dev = dev
spill ((d, b) ∷ t) buff dev = spill t buff (λ i. if i == d then buff b else dev i)

-- These sectors, with those of the page array from p on.
unfoldable pub paired : List ℕ → ℕ → Transfer
paired [] p = []
paired (x ∷ xs) p = (x, p) ∷ paired xs (p + 1)

pub segment-paired : (n ofs p : ℕ) → segment ofs p n ≡ paired (run ofs n) p
unfolding paired
segment-paired zero ofs p = refl
segment-paired (suc n) ofs p =
    ap (λ (t : Transfer). (ofs, p) ∷ t) (segment-paired n (ofs + 1) (p + 1))

pub paired-append :
    (xs ys : List ℕ) (p : ℕ) → paired (xs ++ ys) p ≡ paired xs p ++ paired ys (p + length xs)
unfolding paired
paired-append [] ys p = ap (paired ys) (omega arith)
paired-append (x ∷ xs) ys p =
    ap (λ (t : Transfer). (x, p) ∷ t)
      (paired-append xs ys (p + 1) ∙ ap (λ (q : ℕ). paired xs (p + 1) ++ paired ys q) (omega arith))

-- No sector stands twice.
abbrev pub Apart : List ℕ → Type 0
Apart [] = Unit {0}
Apart (x ∷ xs) = All (λ y. y ≢ x) xs × Apart xs

fill_before :
    (n ofs p i : ℕ) (dev buff : ℕ → ℕ) → i < p → fill (segment ofs p n) dev buff i ≡ buff i
unfolding fill
fill_before zero ofs p i dev buff h = refl
fill_before (suc n) ofs p i dev buff h =
    let other : i == p ≡ false = ground arith in
    fill_before n (ofs + 1) (p + 1) i dev (λ j. if j == p then dev ofs else buff j) (omega arith)
    ∙ (rw other refl)

pub fill-segment :
    (n ofs p i : ℕ) (dev buff : ℕ → ℕ)
    → i < n
    → fill (segment ofs p n) dev buff (p + i) ≡ dev (ofs + i)
unfolding fill
fill-segment zero ofs p i dev buff h = absurd (omega arith)
fill-segment (suc n) ofs p zero dev buff h =
    let e : p + 0 ≡ p = omega arith in
    let o : ofs + 0 ≡ ofs = omega arith in
    let here : p == p ≡ true = (==_iff p p).1 refl in
    rw (e, o)
      (fill_before n (ofs + 1) (p + 1) p dev (λ j. if j == p then dev ofs else buff j) (omega arith)
        ∙ (rw here refl))
fill-segment (suc n) ofs p (suc i) dev buff h =
    let e : p + suc i ≡ p + 1 + i = omega arith in
    let o : ofs + suc i ≡ ofs + 1 + i = omega arith in
    rw (e, o)
      (fill-segment n (ofs + 1) (p + 1) i dev (λ j. if j == p then dev ofs else buff j)
        (omega arith))

spill_other :
    (xs : List ℕ) (p s : ℕ) (buff dev : ℕ → ℕ)
    → All (λ y. y ≢ s) xs
    → spill (paired xs p) buff dev s ≡ dev s
unfolding spill paired
spill_other [] p s buff dev h = refl
spill_other (x ∷ xs) p s buff dev h =
    let other : s == x ≡ false = ground (arith, h.0) in
    spill_other xs (p + 1) s buff (λ j. if j == x then buff p else dev j) h.1 ∙ (rw other refl)

pub spill-paired :
    (xs : List ℕ) (p i : ℕ) (buff dev : ℕ → ℕ)
    → Apart xs
    → i < length xs
    → spill (paired xs p) buff dev (get_or xs i 0) ≡ buff (p + i)
unfolding spill paired
spill-paired [] p i buff dev d h = absurd (omega arith)
spill-paired (x ∷ xs) p zero buff dev d h =
    let here : x == x ≡ true = (==_iff x x).1 refl in
    let e : p + 0 ≡ p = omega arith in
    rw e
      (spill_other xs (p + 1) x buff (λ j. if j == x then buff p else dev j) d.0 ∙ (rw here refl))
spill-paired (x ∷ xs) p (suc i) buff dev d h =
    let e : p + suc i ≡ p + 1 + i = omega arith in
    rw e (spill-paired xs (p + 1) i buff (λ j. if j == x then buff p else dev j) d.1 (omega arith))
