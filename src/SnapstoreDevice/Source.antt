-- ===== src/SnapstoreDevice/Source.antt =====
-- Where the sectors of a snapshot are, by the map of snapstore_device.c, and lists of them.
use mathlib.Core.Path.{ap₂}
use native.Mathlib.Nat.{mul-add-mod_self_left, mul-add-div, mod-eq_of_lt, div-eq_of_lt}
use veeamsnap.Prelude.{
  ℕ, zero, suc, ◌+◌, ◌-◌, ◌*◌, ◌/◌, ◌%◌, ◌<◌, ◌≤◌, ◌≡◌, ◌&&◌, refl, sym, ap, ◌∙◌, Bool, true, false,
  Option, some, List, [], ◌∷◌, ◌++◌, ◌==◌, take, drop, length, length-append, get_or, Status,
  success, enodata, arith,
}
use veeamsnap.Range.{Range}
use veeamsnap.BlkDescrArray.{Header, get}
use veeamsnap.Snapstore.{Target, no_store}
use veeamsnap.Snapstore.Sectors.{dev_run, device_sectors, block_size}
use veeamsnap.Snapstore.Redirect.{ranges_of, has_store}

-- Where the sector s of the snapshot is, by what the map says of its block: in the stored block, or on
-- the device itself.
abbrev pub source : ℕ → ℕ → Status × Option Target → ℕ → ℕ × ℕ
source blk orig (success, some blk_descr) s =
    get_or (device_sectors (ranges_of blk_descr)) (s % blk) (orig, s)
source blk orig _ s = (orig, s)

abbrev pub sector_source : ℕ → ℕ → Header Target → ℕ → ℕ × ℕ
sector_source blk orig map s = source blk orig (get no_store map (s / blk)) s

-- The values of a function at n numbers from a on.
abbrev pub map_run : (ℕ → ℕ × ℕ) → ℕ → ℕ → List (ℕ × ℕ)
map_run f a zero = []
map_run f a (suc n) = f a ∷ map_run f (a + 1) n

-- The map can be read at a block: it is stored whole, or it is not stored.
abbrev pub readable : ℕ → Status × Option Target → Bool
readable blk (success, some blk_descr) =
    has_store blk_descr && block_size (ranges_of blk_descr) == blk
readable blk (enodata, _) = true
readable blk _ = false

pub dev_run-map_run : (dev a n : ℕ) → dev_run dev a n ≡ map_run (λ s. (dev, s)) a n
dev_run-map_run dev a zero = refl
dev_run-map_run dev a (suc n) = ap (◌∷◌ (dev, a)) (dev_run-map_run dev (a + 1) n)

pub map_run-cong :
    (f g : ℕ → ℕ × ℕ) (a n : ℕ)
    → ((s : ℕ) → a ≤ s → s < a + n → f s ≡ g s)
    → map_run f a n ≡ map_run g a n
map_run-cong f g a zero h = refl
map_run-cong f g a (suc n) h =
    ap₂ (λ x xs. x ∷ xs) (h a (omega arith) (omega arith))
      (map_run-cong f g (a + 1) n (λ s lo hi. h s (omega (arith, lo)) (omega (arith, hi))))

pub map_run-join :
    (f : ℕ → ℕ × ℕ) (a n m : ℕ) → m ≤ n → map_run f a m ++ map_run f (a + m) (n - m) ≡ map_run f a n
map_run-join f a n zero h =
    let e : a + 0 ≡ a = omega arith in let z : n - 0 ≡ n = omega arith in ap₂ (map_run f) e z
map_run-join f a zero (suc m) h = absurd (omega arith)
map_run-join f a (suc n) (suc m) h =
    let e : a + suc m ≡ a + 1 + m = omega arith in
    let z : suc n - suc m ≡ n - m = omega arith in
    ap (◌∷◌ (f a)) (
      ap₂ (λ (b k : ℕ). map_run f (a + 1) m ++ map_run f b k) e z
      ∙ map_run-join f (a + 1) n m (omega arith))

pub drop_next :
    (xs : List (ℕ × ℕ)) (k : ℕ) (d : ℕ × ℕ)
    → k < length xs
    → drop k xs ≡ get_or xs k d ∷ drop (suc k) xs
drop_next [] k d h = absurd (omega arith)
drop_next (x ∷ xs) zero d h = refl
drop_next (x ∷ xs) (suc k) d h = drop_next xs k d (omega arith)

pub length-device_sectors : (rgs : List (ℕ × Range)) → length (device_sectors rgs) ≡ block_size rgs
length-device_sectors [] = refl
length-device_sectors ((dev, rg) ∷ rgs) = omega (
  arith,
  length-append (dev_run dev rg.ofs rg.cnt) (device_sectors rgs),
  length-dev_run rg.ofs rg.cnt,
  length-device_sectors rgs,
)
  where
    length-dev_run : (ofs cnt : ℕ) → length (dev_run dev ofs cnt) ≡ cnt
    length-dev_run ofs zero = refl
    length-dev_run ofs (suc cnt) = ap suc (length-dev_run (ofs + 1) cnt)

-- A window of a stored block: the sectors at the places of the request's sectors in their block.
pub window :
    (blk orig q k n : ℕ) (xs : List (ℕ × ℕ))
    → length xs ≡ blk
    → k + n ≤ blk
    → take n (drop k xs) ≡ map_run (λ s. get_or xs (s % blk) (orig, s)) (blk * q + k) n
window blk orig q k zero xs len h = refl
window blk orig q k (suc n) xs len h =
    let place : (blk * q + k) % blk ≡ k =
      mul-add-mod_self_left blk q k ∙ mod-eq_of_lt (omega arith) in
    let next : blk * q + suc k ≡ blk * q + k + 1 = omega arith in
    ap (take (suc n)) (drop_next xs k (orig, blk * q + k) (omega (arith, len, h)))
    ∙ ap₂ (λ x ys. x ∷ ys) (ap (λ (i : ℕ). get_or xs i (orig, blk * q + k)) (sym place))
        (window blk orig q (suc k) n xs len (omega (arith, h))
          ∙ ap (λ (b : ℕ). map_run (λ s. get_or xs (s % blk) (orig, s)) b n) next)

pub block_of : (blk bi s : ℕ) → bi * blk ≤ s → s < (bi + 1) * blk → s / blk ≡ bi
block_of blk bi s lo hi =
    let pos : 0 < blk = ground (arith, lo, hi) in
    let split : s ≡ blk * bi + (s - blk * bi) = omega (arith, lo) in
    let rest : (s - blk * bi) / blk ≡ 0 = div-eq_of_lt (omega (arith, lo, hi)) in
    ap (λ (t : ℕ). t / blk) split ∙ mul-add-div pos bi (s - blk * bi) ∙ omega (arith, rest)
