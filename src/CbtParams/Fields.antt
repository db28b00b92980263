-- ===== src/CbtParams/Fields.antt =====
-- The fields of the parameter string: what is between the separators.
use mathlib.Core.List.{append_assoc, append-nil}
use veeamsnap.Prelude.{
  ℕ, ◌+◌, ◌≡◌, refl, sym, ap, ◌∙◌, false, none, some, List, [], ◌∷◌, ◌++◌, ◌||◌, ◌==◌, ==_iff, All,
  Status, success, Memory,
}
use veeamsnap.CbtParams.{Numbers, Parameters, split_at, parse_pair, parse_field, parse_loop}

abbrev pub Without : ℕ → List ℕ → Type 0
Without c xs = All (λ (x : ℕ). (x == c) ≡ false) xs

pub split_at-append : (c : ℕ) (a b : List ℕ) → Without c a → split_at c (a ++ c ∷ b) ≡ some (a, b)
unfolding split_at
split_at-append c [] b h = rw ((==_iff c c).1 refl) refl
split_at-append c (x ∷ xs) b h = rw (h.0, split_at-append c xs b h.1) refl

pub split_at-none : (c : ℕ) (a : List ℕ) → Without c a → split_at c a ≡ none
unfolding split_at
split_at-none c [] h = refl
split_at-none c (x ∷ xs) h = rw (h.0, split_at-none c xs h.1) refl

pub parse_pair_lem :
    (number : List ℕ → Status × ℕ) (a b : List ℕ) (m n : ℕ)
    → Without b':' a
    → number a ≡ (success, m)
    → number b ≡ (success, n)
    → parse_pair number (a ++ b':' ∷ b) ≡ (success, m, n)
unfolding parse_pair
parse_pair_lem number a b m n h e f = rw (split_at-append b':' a b h, parse_pair) (rw (e, f) refl)

-- A text in which no field ends.
abbrev pub Unbroken : List ℕ → Type 0
Unbroken xs = All (λ (x : ℕ). ((x == b';' || x == b'.')) ≡ false) xs

pub parse_loop-field :
    (k : Numbers) (a str substr : List ℕ) (i : ℕ) (p : Parameters) (mem : Memory)
    → Unbroken a
    → parse_loop k (a ++ str) substr i p mem ≡ parse_loop k str (substr ++ a) i p mem
unfolding parse_loop
parse_loop-field k [] str substr i p mem h =
    ap (λ (s : List ℕ). parse_loop k str s i p mem) (sym (append-nil substr))
parse_loop-field k (x ∷ xs) str substr i p mem h = rw h.0 (
    parse_loop-field k xs str (substr ++ x ∷ []) i p mem h.1
    ∙ ap (λ (s : List ℕ). parse_loop k str s i p mem) (append_assoc substr (x ∷ []) xs))

-- A field that is read, and the rest.
pub parse_loop-next :
    (k : Numbers) (str substr : List ℕ) (i : ℕ) (p p' : Parameters) (mem mem' : Memory)
    → parse_field k i substr p mem ≡ some (success, p', mem')
    → parse_loop k (b';' ∷ str) substr i p mem ≡ parse_loop k str [] (i + 1) p' mem'
unfolding parse_loop
parse_loop-next k str substr i p p' mem mem' e = rw e refl

pub parse_loop-last :
    (k : Numbers) (str substr : List ℕ) (i : ℕ) (p p' : Parameters) (mem mem' : Memory)
    → parse_field k i substr p mem ≡ some (success, p', mem')
    → parse_loop k (b'.' ∷ str) substr i p mem ≡ some (success, p', mem')
unfolding parse_loop
parse_loop-last k str substr i p p' mem mem' e = rw e refl
