-- ===== src/Runtime/Fixed.antt =====
-- A runtime of fixed-point numbers with six decimals, which meets the laws: the theorems about the
-- code are applied at it. Its `exp`, `round` and `lower` are simple stand-ins.
use ipointel.Base.{
  ℕ, ◌+◌, ◌*◌, ◌/◌, ◌^◌, ◌≤◌, ◌≡◌, refl, ◌⊎◌, true, some, List, [], ◌∷◌, arith, ltb, if◌then◌else◌,
  length,
}
use ipointel.Base.Int.{ℤ, pos, pos_part, neg_part, sub_ℕ, ◌+ℤ◌, ◌-ℤ◌, leb_ℤ}
use ipointel.Runtime.{Runtime, RuntimeLaws}

unfoldable pub fixed_dec : ℕ → ℕ → ℤ
fixed_dec m k = pos (m * 10 ^ 6 / 10 ^ k)

-- The sign of a product or quotient over its size.
abbrev signed : ℤ → ℤ → ℕ → ℤ
signed a b n =
    if ltb (pos_part a) (neg_part a)
    then (if ltb (pos_part b) (neg_part b) then pos n else sub_ℕ 0 n)
    else (if ltb (pos_part b) (neg_part b) then sub_ℕ 0 n else pos n)

abbrev size : ℤ → ℕ
size a = pos_part a + neg_part a

unfoldable pub fixed_mul : ℤ → ℤ → ℤ
fixed_mul a b = signed a b (size a * size b / 10 ^ 6)

unfoldable pub fixed_div : ℤ → ℤ → ℤ
fixed_div a b = signed a b (size a * 10 ^ 6 / size b)

sum : List ℤ → ℤ
sum [] = pos 0
sum (x ∷ xs) = x +ℤ sum xs

unfoldable pub fixed_mean : List ℤ → ℤ
unfolding sum ◌+ℤ◌
fixed_mean xs = let s = sum xs in signed s (pos 1) (size s / length xs)

abbrev pub fixed : Runtime
fixed = record {
  F = ℤ;
  dec = fixed_dec;
  add = ◌+ℤ◌;
  sub = ◌-ℤ◌;
  mul = fixed_mul;
  div = fixed_div;
  leb = leb_ℤ;
  exp = λ x. x +ℤ fixed_dec 1 0;
  mean = fixed_mean;
  round = λ x n. x;
  lower = λ s. s;
  hostname = λ s. some s;
}

fixed-le_total : (a b : ℤ) → (leb_ℤ a b ≡ true) ⊎ (leb_ℤ b a ≡ true)
fixed-le_total a b = ground arith

fixed-le_trans : (a b c : ℤ) → leb_ℤ a b ≡ true → leb_ℤ b c ≡ true → leb_ℤ a c ≡ true
fixed-le_trans a b c h k = ground arith

div_mono : (m n k : ℕ) → m ≤ n → m / k ≤ n / k
div_mono m n k h = grind arith

fixed-dec_mono : (m n k : ℕ) → m ≤ n → leb_ℤ (fixed_dec m k) (fixed_dec n k) ≡ true
unfolding fixed_dec
fixed-dec_mono m n k h = ground (arith, div_mono (m * 10 ^ 6) (n * 10 ^ 6) (10 ^ k) (omega arith))

pub fixed_laws : RuntimeLaws fixed
fixed_laws = record {
  le_total = fixed-le_total;
  le_trans = fixed-le_trans;
  dec_mono = fixed-dec_mono;
  round_mono = λ a b n h. h;
  round_whole = λ m n. refl;
}
