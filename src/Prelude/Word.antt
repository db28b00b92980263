-- ===== src/Prelude/Word.antt =====
-- 64-bit words: `sector_t`, `size_t` and `unsigned long long`.
use veeamsnap.Prelude.{ℕ, ◌+◌, ◌-◌, ◌%◌, ◌^◌, ◌<◌, ◌≤◌, ◌≡◌, arith}

abbrev pub word : ℕ
word = 2 ^ 64

-- a + b
abbrev pub add64 : ℕ → ℕ → ℕ
add64 a b = (a + b) % 2 ^ 64

-- a - b, for b below 2 ^ 64
abbrev pub sub64 : ℕ → ℕ → ℕ
sub64 a b = (a + 2 ^ 64 - b) % 2 ^ 64

pub add64_exact : (a b : ℕ) → a + b < word → add64 a b ≡ a + b
add64_exact a b h = omega arith

pub sub64_exact : (a b : ℕ) → a < word → b ≤ a → sub64 a b ≡ a - b
sub64_exact a b h k = omega arith
