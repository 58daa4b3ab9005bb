-- ===== src/Runtime.antt =====
-- What the models take from the Python runtime: floats, and the library functions that the code calls
-- on numbers and texts. A float is taken to be no NaN, so that `a < b` is the negation of `b <= a`.
pub mod Fixed
pub mod Order
use ipointel.Base.{ℕ, ◌≤◌, String, ◌≡◌, ◌⊎◌, Bool, true, Option, List, ◌&&◌, not}

pub record Runtime : Type 1 where
  pub F : Type 0
  -- `dec m k` is the literal m / 10 ^ k, as 0.68 is `dec 68 2`.
  pub dec : ℕ → ℕ → F
  pub add : F → F → F
  pub sub : F → F → F
  pub mul : F → F → F
  -- `a / b` where b is not zero; the callers test that.
  pub div : F → F → F
  pub leb : F → F → Bool
  -- `math.exp`, `statistics.mean` of a list that is not empty, `round(x, n)`
  pub exp : F → F
  pub mean : List F → F
  pub round : F → ℕ → F
  -- `str.lower`, and the hostname of `urllib.parse.urlparse`, none where it has none or raises
  pub lower : String → String
  pub hostname : String → Option String

-- The documented behaviour that theorems rely on: `<=` is a total preorder, literals are in order,
-- rounding keeps the order, and it keeps whole numbers.
pub record RuntimeLaws (py : Runtime) : Type 1 where
  pub le_total : (a b : py.F) → (py.leb a b ≡ true) ⊎ (py.leb b a ≡ true)
  pub le_trans : (a b c : py.F) → py.leb a b ≡ true → py.leb b c ≡ true → py.leb a c ≡ true
  pub dec_mono : (m n k : ℕ) → m ≤ n → py.leb (py.dec m k) (py.dec n k) ≡ true
  pub round_mono :
      (a b : py.F) (n : ℕ) → py.leb a b ≡ true → py.leb (py.round a n) (py.round b n) ≡ true
  pub round_whole : (m n : ℕ) → py.round (py.dec m 0) n ≡ py.dec m 0
