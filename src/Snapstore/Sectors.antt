-- ===== src/Snapstore/Sectors.antt =====
-- The sectors that the calls of `blk_dev_redirect_part` address, as lists, and their windows.
use mathlib.Core.Path.{ap₂}
use mathlib.Core.List.{append_assoc, append-nil}
use veeamsnap.Prelude.{
  ℕ, zero, suc, ◌+◌, ◌-◌, ◌≤◌, ◌≡◌, refl, sym, ap, ◌∙◌, inl, inr, List, [], ◌∷◌, ◌++◌, leb,
  Bool-cases, min, take, drop, arith,
}
use veeamsnap.Range.{Range, run}
use veeamsnap.Snapstore.{Part}

-- Sectors of devices.
abbrev pub dev_run : ℕ → ℕ → ℕ → List (ℕ × ℕ)
dev_run dev ofs zero = []
dev_run dev ofs (suc cnt) = (dev, ofs) ∷ dev_run dev (ofs + 1) cnt

-- The sectors of a block, in order.
abbrev pub device_sectors : List (ℕ × Range) → List (ℕ × ℕ)
device_sectors [] = []
device_sectors ((dev, rg) ∷ rgs) = dev_run dev rg.ofs rg.cnt ++ device_sectors rgs

abbrev pub block_size : List (ℕ × Range) → ℕ
block_size [] = 0
block_size ((dev, rg) ∷ rgs) = rg.cnt + block_size rgs

-- The sectors of the devices, and of the request, that calls of `blk_dev_redirect_part` address.
abbrev pub device_side : List Part → List (ℕ × ℕ)
device_side [] = []
device_side (part ∷ parts) = dev_run part.blk_dev part.pos part.len ++ device_side parts

abbrev pub request_side : List Part → List ℕ
request_side [] = []
request_side (part ∷ parts) = run part.rq_ofs part.len ++ request_side parts

pub dev_run-window :
    (dev ofs cnt i n : ℕ) (xs : List (ℕ × ℕ))
    → i + n ≤ cnt
    → take n (drop i (dev_run dev ofs cnt ++ xs)) ≡ dev_run dev (ofs + i) n
dev_run-window dev ofs cnt zero zero xs h = refl
dev_run-window dev ofs zero zero (suc n) xs h = absurd (omega arith)
dev_run-window dev ofs (suc cnt) zero (suc n) xs h =
    let here : ofs ≡ ofs + 0 = omega arith in
    let next : ofs + 1 + 0 ≡ ofs + 0 + 1 = omega arith in
    ap₂ (λ (o : ℕ) ys. (dev, o) ∷ ys) here
      (dev_run-window dev (ofs + 1) cnt zero n xs (omega arith)
        ∙ ap (λ (o : ℕ). dev_run dev o n) next)
dev_run-window dev ofs zero (suc i) n xs h = absurd (omega arith)
dev_run-window dev ofs (suc cnt) (suc i) n xs h =
    let next : ofs + 1 + i ≡ ofs + suc i = omega arith in
    dev_run-window dev (ofs + 1) cnt i n xs (omega arith) ∙ ap (λ (o : ℕ). dev_run dev o n) next

pub dev_run-past :
    (dev ofs cnt i : ℕ) (xs : List (ℕ × ℕ))
    → cnt ≤ i
    → drop i (dev_run dev ofs cnt ++ xs) ≡ drop (i - cnt) xs
dev_run-past dev ofs zero i xs h = ap (λ (k : ℕ). drop k xs) (omega arith)
dev_run-past dev ofs (suc cnt) zero xs h = absurd (omega arith)
dev_run-past dev ofs (suc cnt) (suc i) xs h =
    dev_run-past dev (ofs + 1) cnt i xs (omega arith) ∙ ap (λ (k : ℕ). drop k xs) (omega arith)

-- A window that reaches past the first range: the rest of the range, and then the next ranges.
pub dev_run-across :
    (dev ofs cnt i n : ℕ) (xs : List (ℕ × ℕ))
    → i ≤ cnt
    → cnt ≤ i + n
    → take n (drop i (dev_run dev ofs cnt ++ xs))
      ≡ dev_run dev (ofs + i) (cnt - i) ++ take (n - (cnt - i)) xs
dev_run-across dev ofs zero zero n xs lo hi = ap (λ (k : ℕ). take k xs) (omega arith)
dev_run-across dev ofs zero (suc i) n xs lo hi = absurd (omega arith)
dev_run-across dev ofs (suc cnt) zero zero xs lo hi = absurd (omega arith)
dev_run-across dev ofs (suc cnt) zero (suc n) xs lo hi =
    let here : ofs + 1 + 0 ≡ ofs + 1 = omega arith in
    let all : cnt - 0 ≡ cnt = omega arith in
    let here' : ofs ≡ ofs + 0 = omega arith in
    let all' : suc cnt ≡ suc cnt - 0 = omega arith in
    let rest : n - cnt ≡ suc n - (suc cnt - 0) = omega arith in
    ap (◌∷◌ (dev, ofs)) (dev_run-across dev (ofs + 1) cnt zero n xs (omega arith) (omega arith))
    ∙ ap (λ (o : ℕ). (dev, ofs) ∷ dev_run dev o (cnt - 0) ++ take (n - (cnt - 0)) xs) here
    ∙ ap (λ (k : ℕ). (dev, ofs) ∷ dev_run dev (ofs + 1) k ++ take (n - k) xs) all
    ∙ ap (λ (o : ℕ). dev_run dev o (suc cnt) ++ take (n - cnt) xs) here'
    ∙ ap (λ (k : ℕ). dev_run dev (ofs + 0) k ++ take (n - cnt) xs) all'
    ∙ ap (λ (k : ℕ). dev_run dev (ofs + 0) (suc cnt - 0) ++ take k xs) rest
dev_run-across dev ofs (suc cnt) (suc i) n xs lo hi =
    let next : ofs + 1 + i ≡ ofs + suc i = omega arith in
    let same : cnt - i ≡ suc cnt - suc i = omega arith in
    dev_run-across dev (ofs + 1) cnt i n xs (omega arith) (omega arith)
    ∙ ap (λ (o : ℕ). dev_run dev o (cnt - i) ++ take (n - (cnt - i)) xs) next
    ∙ ap (λ (k : ℕ). dev_run dev (ofs + suc i) k ++ take (n - k) xs) same

pub device_side-append :
    (ps qs : List Part) → device_side (ps ++ qs) ≡ device_side ps ++ device_side qs
device_side-append [] qs = refl
device_side-append (part ∷ ps) qs =
    let first = dev_run part.blk_dev part.pos part.len in
    ap (◌++◌ first) (device_side-append ps qs)
    ∙ sym (append_assoc first (device_side ps) (device_side qs))

pub request_side-append :
    (ps qs : List Part) → request_side (ps ++ qs) ≡ request_side ps ++ request_side qs
request_side-append [] qs = refl
request_side-append (part ∷ ps) qs =
    let first = run part.rq_ofs part.len in
    ap (◌++◌ first) (request_side-append ps qs)
    ∙ sym (append_assoc first (request_side ps) (request_side qs))

-- The window that one call and the calls after it cover.
pub window_split :
    (dev ofs cnt bo n : ℕ) (rest : List (ℕ × ℕ))
    → bo ≤ cnt
    → dev_run dev (ofs + bo) (min (cnt - bo) n) ++ take (n - min (cnt - bo) n) rest
      ≡ take n (drop bo (dev_run dev ofs cnt ++ rest))
window_split dev ofs cnt bo n rest le = elim (Bool-cases (leb (cnt - bo) n)) [
  | inl across ↦
      let e : min (cnt - bo) n ≡ cnt - bo = ground (arith, across) in
      ap (λ (k : ℕ). dev_run dev (ofs + bo) k ++ take (n - k) rest) e
      ∙ sym (dev_run-across dev ofs cnt bo n rest le (ground (arith, across)))
  | inr inside ↦
      let e : min (cnt - bo) n ≡ n = ground (arith, inside) in
      let z : n - n ≡ 0 = omega arith in
      ap (λ (k : ℕ). dev_run dev (ofs + bo) k ++ take (n - k) rest) e
      ∙ ap (λ (k : ℕ). dev_run dev (ofs + bo) n ++ take k rest) z
      ∙ append-nil (dev_run dev (ofs + bo) n)
      ∙ sym (dev_run-window dev ofs cnt bo n rest (ground (arith, inside)))
]

pub run-join : (a n m : ℕ) → m ≤ n → run a m ++ run (a + m) (n - m) ≡ run a n
run-join a n zero h =
    let e : a + 0 ≡ a = omega arith in let z : n - 0 ≡ n = omega arith in ap₂ run e z
run-join a zero (suc m) h = absurd (omega arith)
run-join a (suc n) (suc m) h =
    let e : a + suc m ≡ a + 1 + m = omega arith in
    let z : suc n - suc m ≡ n - m = omega arith in
    ap (◌∷◌ a)
      (ap₂ (λ (b k : ℕ). run (a + 1) m ++ run b k) e z ∙ run-join (a + 1) n m (omega arith))
