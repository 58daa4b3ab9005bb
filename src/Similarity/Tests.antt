-- ===== src/Similarity/Tests.antt =====
-- A target among listed issues.
use ipointel.Base.{ℕ, ◌≤◌, ◌≡◌, refl, Option, none, some, List, [], ◌∷◌, length, All, map}
use ipointel.Base.Int.{ℤ, pos, ◌+ℤ◌, ◌-ℤ◌}
use ipointel.Runtime.Fixed.{fixed, fixed_dec, fixed_mul, fixed_div, fixed_mean, fixed_laws}
use ipointel.Ipo.{Ipo}
use ipointel.Ipo.Sample.{complete}
use ipointel.Walkforward.{sum_from}
use ipointel.Similarity.{find_similar}
use ipointel.Similarity.Close.{IsMatch, find_similar-IsMatch}

-- Simple stand-ins for the deviation and the root.
abbrev spread : List ℤ → ℤ
spread xs = pos 10_000_000

abbrev root : ℤ → ℤ
root x = x

abbrev unknown : ℕ → Option ℤ
unknown id = none

-- An issue by its subscription and its EBITDA.
abbrev issue : ℕ → ℤ → ℤ → Ipo ℤ
issue id sub ebitda = record complete { id = id; total_sub = some sub; ebitda_m = some ebitda }

abbrev others : List (Ipo ℤ)
others =
    issue 1 (pos 9_000_000) (pos 180_000_000)
    ∷ issue 2 (pos 10_000_000) (pos 180_000_000)
    ∷ issue 3 (pos 90_000_000) (pos 180_000_000)
    ∷ issue 4 (pos 8_000_000) (pos 190_000_000)
    ∷ issue 5 (pos 12_000_000) (pos 170_000_000)
    ∷ complete
    ∷ []

-- The issue with ten times the subscription is no match, and neither is the target itself.
nearest_first :
    map (λ m. m.ipo_id) (find_similar fixed spread root unknown complete 8 others).matches
    ≡ 1 ∷ 2 ∷ 4 ∷ 5 ∷ []
unfolding find_similar fixed_dec fixed_mul fixed_div fixed_mean ◌+ℤ◌ ◌-ℤ◌ sum_from
nearest_first = refl

find_similar-IsMatch_example :
    let found = find_similar fixed spread root unknown complete 8 others in
    (length found.matches ≤ 8) × All (IsMatch fixed spread root unknown complete) found.matches
find_similar-IsMatch_example =
    find_similar-IsMatch fixed spread root unknown fixed_laws complete 8 others
