-- ===== src/MarketRegime/Tests.antt =====
-- A listing after thirty index closes, and the theorem with a bar from after it.
use ipointel.Base.{ℕ, zero, suc, ◌+◌, ◌*◌, ◌≡◌, refl, some, List, [], ◌∷◌, ◌++◌, arith, is_some}
use ipointel.Base.Int.{ℤ, pos}
use ipointel.Runtime.Fixed.{fixed, fixed_dec}
use ipointel.Base.{true, false}
use ipointel.MarketRegime.{Bar, regime_at}
use ipointel.MarketRegime.PointInTime.{regime_at-late}

abbrev same : ℤ → ℤ
same x = x

-- `n` bars, a day or three apart from a day on, at a flat price
abbrev bars : ℕ → ℕ → List (Bar ℤ)
bars zero day = []
bars (suc n) day = record { ts = day * 86_400; close = some (pos 100_000_000) } ∷ bars n (day + 3)

-- The closes of the days 0, 3, ..., 87 cover a listing on day 90, and not one on day 100.
covered : is_some (regime_at fixed same same (bars 30 0) (some (90 * 86_400))) ≡ true
unfolding regime_at fixed_dec
covered = refl

stale : is_some (regime_at fixed same same (bars 30 0) (some (100 * 86_400))) ≡ false
unfolding regime_at fixed_dec
stale = refl

abbrev crash : Bar ℤ
crash = record { ts = 90 * 86_400; close = some (pos 10_000_000) }

regime_at-late_example :
    regime_at fixed same same (bars 30 0 ++ ((crash ∷ []) ++ [])) (some (90 * 86_400))
    ≡ regime_at fixed same same (bars 30 0 ++ []) (some (90 * 86_400))
regime_at-late_example =
    regime_at-late fixed same same (90 * 86_400) (bars 30 0) (crash ∷ []) [] (omega arith)
