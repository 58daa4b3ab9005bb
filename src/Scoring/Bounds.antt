-- ===== src/Scoring/Bounds.antt =====
-- The figures of the score stay in their ranges, whatever the inputs are.
use ipointel.Base.{ℕ, ◌≤◌, ◌≡◌, ◌⊎◌, true, Option, none, some, arith, Bool-cases, inl, inr}
use ipointel.Runtime.{Runtime, RuntimeLaws}
use ipointel.Runtime.Order.{num, eq, le_refl}
use ipointel.Ipo.{Ipo}
use ipointel.Scoring.{clamp_to, clamp, score_linear, probability_from_score}
use ipointel.Scoring.Confidence.{confidence}
use ipointel.Scoring.Score.{Settings, compute_score}

-- Between two whole numbers, ends included.
abbrev pub Within : (py : Runtime) → ℕ → ℕ → py.F → Type 0
Within py lo hi x = (py.leb (num py lo) x ≡ true) × (py.leb x (num py hi) ≡ true)

module _ (py : Runtime) (laws : RuntimeLaws py) where
  open py use {F, leb}

  pub clamp_to-Within :
      (lo hi : ℕ) (v : F) → lo ≤ hi → Within py lo hi (clamp_to py (num py lo) (num py hi) v)
  unfolding clamp_to
  clamp_to-Within lo hi v h = (ground (arith, facts), ground (arith, facts))
    where
      facts :
          (leb (num py lo) (num py hi) ≡ true)
          × (leb (num py lo) (num py lo) ≡ true)
          × (leb (num py hi) (num py hi) ≡ true)
          × ((leb (num py lo) v ≡ true) ⊎ (leb v (num py lo) ≡ true))
          × ((leb (num py hi) v ≡ true) ⊎ (leb v (num py hi) ≡ true))
      facts = (
        laws.dec_mono lo hi 0 h,
        le_refl py laws (num py lo),
        le_refl py laws (num py hi),
        laws.le_total (num py lo) v,
        laws.le_total (num py hi) v,
      )

  -- `score_linear` lies between 0 and 100, also at a missing value and at an empty range.
  pub score_linear-Within :
      (v : Option F) (low high : F) → Within py 0 100 (score_linear py v low high)
  unfolding score_linear
  score_linear-Within none low high =
      (laws.dec_mono 0 50 0 (omega arith), laws.dec_mono 50 100 0 (omega arith))
  score_linear-Within (some v) low high = elim (Bool-cases (eq py high low)) [
    | inl empty ↦
        rw empty (laws.dec_mono 0 50 0 (omega arith), laws.dec_mono 50 100 0 (omega arith))
    | inr proper ↦ rw proper (clamp_to-Within 0 100 _ (omega arith))
  ]

  confidence-Within :
      (now : ℕ) (ipo : Ipo F) (conflicts : ℕ) → Within py 0 100 (confidence py now ipo conflicts)
  unfolding confidence clamp
  confidence-Within now ipo conflicts = clamp_to-Within 0 100 _ (omega arith)

  probability-Within :
      (score midpoint scale : F) → Within py 2 98 (probability_from_score py score midpoint scale)
  unfolding probability_from_score
  probability-Within score midpoint scale = clamp_to-Within 2 98 _ (omega arith)

  rounded-Within : (lo hi n : ℕ) (x : F) → Within py lo hi x → Within py lo hi (py.round x n)
  rounded-Within lo hi n x h = (
    rw laws.round_whole at (laws.round_mono (num py lo) x n h.0),
    rw laws.round_whole at (laws.round_mono x (num py hi) n h.1),
  )

  -- For every record, the published confidence lies between 0 and 100, and both published
  -- probabilities lie between 2 and 98.
  pub compute_score-Within :
      (settings : Settings F) (now : ℕ) (ipo : Ipo F) (conflicts : ℕ)
      → let s = compute_score py settings now ipo conflicts in
        Within py 0 100 s.confidence
        × Within py 2 98 s.listing_gain_probability
        × Within py 2 98 s.long_term_outperform_probability
  unfolding compute_score
  compute_score-Within settings now ipo conflicts = (
    rounded-Within 0 100 1 _ (confidence-Within now ipo conflicts),
    rounded-Within 2 98 1 _ (probability-Within _ _ _),
    rounded-Within 2 98 1 _ (probability-Within _ _ _),
  )
