-- ===== src/CbtParams/Ranges.antt =====
-- `_cbt_prst_parse_rangevector` ends on every text, and reads back the ranges that a text was printed from.
use mathlib.Core.List.{append_assoc, append-nil}
use veeamsnap.Prelude.{
  ℕ, suc, zero, ◌/◌, ◌<◌, ◌≡◌, refl, sym, ap, ◌∙◌, true, false, Option, none, some, List, [], ◌∷◌,
  ◌++◌, ◌==◌, if◌then◌else◌, Bool-cases, Option-cases, inl, inr, All, length, length-append, Status,
  success, is_success, Memory, arith,
}
use veeamsnap.Range.{Range}
use veeamsnap.RangeVector.{RangeVector, slots, add}
use veeamsnap.RangeVector.Store.{IsValid, add_lem, add_granted}
use veeamsnap.CbtParams.{
  Numbers, Parameters, split_at, parse_range, parse_one, ranges_loop, parse_rangevector,
}
use veeamsnap.CbtParams.Fields.{Without, split_at-append, split_at-none, parse_pair_lem}

-- A range as two texts, and the numbers that they stand for.
pub record RangeText : Type 0 where
  pub ofs_text : List ℕ
  pub len_text : List ℕ
  pub ofs : ℕ
  pub len : ℕ

abbrev pub print_range : RangeText → List ℕ
print_range r = r.ofs_text ++ b':' ∷ r.len_text

abbrev pub print_ranges : List RangeText → List ℕ
print_ranges [] = []
print_ranges (r ∷ []) = print_range r
print_ranges (r ∷ r' ∷ rs) = print_range r ++ b',' ∷ print_ranges (r' ∷ rs)

abbrev pub sectors_of : RangeText → Range
sectors_of r = record { ofs = r.ofs / 512; cnt = r.len / 512 }

abbrev pub ranges_of : List RangeText → List Range
ranges_of [] = []
ranges_of (r ∷ rs) = sectors_of r ∷ ranges_of rs

abbrev pub ReadsRange : Numbers → RangeText → Type 0
ReadsRange k r =
    (k.kstrtou64 r.ofs_text ≡ (success, r.ofs))
    × (k.kstrtou64 r.len_text ≡ (success, r.len))
    × Without b':' r.ofs_text
    × Without b',' r.ofs_text
    × Without b',' r.len_text

Without-append : (c : ℕ) (a b : List ℕ) → Without c a → Without c b → Without c (a ++ b)
Without-append c [] b h h' = h'
Without-append c (x ∷ xs) b h h' = (h.0, Without-append c xs b h.1 h')

parse_one_lem :
    (k : Numbers) (r : RangeText) (v : RangeVector)
    → ReadsRange k r
    → parse_one k (print_range r) v [] ≡ add v (sectors_of r) []
unfolding parse_one parse_range
parse_one_lem k r v h =
    rw (parse_pair_lem k.kstrtou64 r.ofs_text r.len_text r.ofs r.len h.2 h.0 h.1) refl

-- The three ways on from a text
module _ (fuel : ℕ) (k : Numbers) (str : List ℕ) (v : RangeVector) (mem : Memory) where
  loop_empty :
      split_at b',' str ≡ none
      → (length str == 0) ≡ true
      → ranges_loop (suc fuel) k str v mem ≡ some (success, v, mem)
  unfolding ranges_loop
  loop_empty e y = rw (e, ranges_loop) (rw y refl)

  loop_last :
      split_at b',' str ≡ none
      → (length str == 0) ≡ false
      → ranges_loop (suc fuel) k str v mem ≡ some (parse_one k str v mem)
  unfolding ranges_loop
  loop_last e n = rw (e, ranges_loop) (rw n refl)

  loop_next :
      (a b : List ℕ)
      → split_at b',' str ≡ some (a, b)
      → is_success (parse_one k a v mem).0 ≡ true
      → ranges_loop (suc fuel) k str v mem
        ≡ ranges_loop fuel k b (parse_one k a v mem).1 (parse_one k a v mem).2
  unfolding ranges_loop
  loop_next a b e y = rw (e, ranges_loop) (rw y refl)

  loop_stop :
      (a b : List ℕ)
      → split_at b',' str ≡ some (a, b)
      → is_success (parse_one k a v mem).0 ≡ false
      → ranges_loop (suc fuel) k str v mem ≡ some (parse_one k a v mem)
  unfolding ranges_loop
  loop_stop a b e n = rw (e, ranges_loop) (rw n refl)

-- What one range adds.
read_one :
    (k : Numbers) (r : RangeText) (v : RangeVector)
    → ReadsRange k r
    → IsValid v
    → (v' : RangeVector) × (parse_one k (print_range r) v [] ≡ (success, v', []))
      × IsValid v'
      × (slots v'.els ≡ slots v.els ++ sectors_of r ∷ [])
read_one k r v h valid =
    let w = add v (sectors_of r) [] in
    let (ok, none_left) = add_granted v (sectors_of r) in
    let (valid', held) = add_lem v (sectors_of r) [] valid in
    (
      w.1,
      parse_one_lem k r v h
          ∙ ap (λ (s : Status). (s, w.1, w.2)) ok
          ∙ ap (λ (m : Memory). (success, w.1, m)) none_left,
      valid',
      held
          ∙ ap
              (λ (s : Status).
                if is_success s then slots v.els ++ sectors_of r ∷ [] else slots v.els)
              ok,
    )

unbroken_range : (k : Numbers) (r : RangeText) → ReadsRange k r → Without b',' (print_range r)
unbroken_range k r h = Without-append b',' r.ofs_text (b':' ∷ r.len_text) h.3 (refl, h.4)

longer : (r : RangeText) → 0 < length (print_range r)
longer r = omega (arith, length-append r.ofs_text (b':' ∷ r.len_text))

ranges_loop_lem :
    (fuel : ℕ) (k : Numbers) (rs : List RangeText) (v : RangeVector)
    → All (ReadsRange k) rs
    → length (print_ranges rs) < fuel
    → IsValid v
    → (v' : RangeVector) × (ranges_loop fuel k (print_ranges rs) v [] ≡ some (success, v', []))
      × IsValid v'
      × (slots v'.els ≡ slots v.els ++ ranges_of rs)
ranges_loop_lem zero k rs v h lt valid = absurd (omega arith)
ranges_loop_lem (suc fuel) k [] v h lt valid = (
  v,
  loop_empty fuel k [] v [] (split_at-none b',' [] tt) refl,
  valid,
  sym (append-nil (slots v.els)),
)
ranges_loop_lem (suc fuel) k (r ∷ []) v h lt valid =
    let (v', e, valid', held) = read_one k r v h.0 valid in
    let full : (length (print_range r) == 0) ≡ false = ground (arith, longer r) in
    (
      v',
      loop_last fuel k (print_range r) v []
            (split_at-none b',' (print_range r) (unbroken_range k r h.0)) full
          ∙ ap some e,
      valid',
      held,
    )
ranges_loop_lem (suc fuel) k (r ∷ r' ∷ rs) v h lt valid =
    let (v', e, valid', held) = read_one k r v h.0 valid in
    let str : List ℕ = print_ranges (r' ∷ rs) in
    let less : length str < fuel = omega (arith, lt, length-append (print_range r) (b',' ∷ str)) in
    let (v'', e', valid'', held') = ranges_loop_lem fuel k (r' ∷ rs) v' h.1 less valid' in
    (
      v'',
      loop_next fuel k (print_range r ++ b',' ∷ str) v [] (print_range r) str
            (split_at-append b',' (print_range r) str (unbroken_range k r h.0))
            (ap (λ (q : Status × RangeVector × Memory). is_success q.0) e)
          ∙ ap (λ (q : Status × RangeVector × Memory). ranges_loop fuel k str q.1 q.2) e
          ∙ e',
      valid'',
      held'
          ∙ ap (λ (xs : List Range). xs ++ ranges_of (r' ∷ rs)) held
          ∙ append_assoc (slots v.els) (sectors_of r ∷ []) (ranges_of (r' ∷ rs)),
    )

after_of : Option (List ℕ × List ℕ) → List ℕ
after_of none = []
after_of (some (a, b)) = b

split_at-shorter : (c : ℕ) (xs a b : List ℕ) → split_at c xs ≡ some (a, b) → length b < length xs
unfolding split_at after_of
split_at-shorter c [] a b h = absurd (cc h)
split_at-shorter c (x ∷ xs) a b h = elim (Bool-cases (x == c)) [
  | inl y ↦ let same : xs ≡ b = sym (rw y refl) ∙ ap after_of h in omega (arith, ap length same)
  | inr n ↦ elim (Option-cases (split_at c xs)) [
    | inl e ↦
        let nothing : split_at c (x ∷ xs) ≡ none = rw n (rw e refl) in absurd (cc (sym nothing ∙ h))
    | inr ((a', b'), e) ↦
        let same : b' ≡ b = sym (rw n (rw e refl)) ∙ ap after_of h in
        omega (arith, ap length same, split_at-shorter c xs a' b' e)
  ]
]

-- The fuel is enough for every text.
ranges_loop-total :
    (fuel : ℕ) (k : Numbers) (str : List ℕ) (v : RangeVector) (mem : Memory)
    → length str < fuel
    → (r : Status × RangeVector × Memory) × (ranges_loop fuel k str v mem ≡ some r)
ranges_loop-total zero k str v mem lt = absurd (omega arith)
ranges_loop-total (suc fuel) k str v mem lt = elim (Option-cases (split_at b',' str)) [
  | inl e ↦ elim (Bool-cases (length str == 0)) [
    | inl y ↦ (_, loop_empty fuel k str v mem e y)
    | inr n ↦ (_, loop_last fuel k str v mem e n)
  ]
  | inr ((a, b), e) ↦
      let q = parse_one k a v mem in
      elim (Bool-cases (is_success q.0)) [
        | inl y ↦
            let (r, e') =
              ranges_loop-total fuel k b q.1 q.2
                (omega (arith, lt, split_at-shorter b',' str a b e)) in
            (r, loop_next fuel k str v mem a b e y ∙ e')
        | inr n ↦ (_, loop_stop fuel k str v mem a b e n)
      ]
]

parse_with :
    (k : Numbers) (str : List ℕ) (p : Parameters) (mem mem' : Memory) (v : RangeVector)
    → ranges_loop (suc (length str)) k str p.rangevector mem ≡ some (success, v, mem')
    → parse_rangevector k str p mem ≡ some (success, record p { rangevector = v }, mem')
unfolding parse_rangevector
parse_with k str p mem mem' v e = rw (e, parse_rangevector) refl

pub parse_rangevector_lem :
    (k : Numbers) (rs : List RangeText) (p : Parameters)
    → All (ReadsRange k) rs
    → IsValid p.rangevector
    → (v' : RangeVector) × (parse_rangevector k (print_ranges rs) p []
        ≡ some (success, record p { rangevector = v' }, []))
      × IsValid v'
      × (slots v'.els ≡ slots p.rangevector.els ++ ranges_of rs)
parse_rangevector_lem k rs p h valid =
    let (v', e, valid', held) =
      ranges_loop_lem (suc (length (print_ranges rs))) k rs p.rangevector h (omega arith) valid in
    (v', parse_with k (print_ranges rs) p [] [] v' e, valid', held)
