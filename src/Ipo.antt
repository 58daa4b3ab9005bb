-- ===== src/Ipo.antt =====
-- app/models.py: the row of an IPO, as the engines read it. `F` is the type of floats.
pub mod Sample
use ipointel.Base.{ℕ, String, Bool, Option, List}

-- `IPO`, without the columns that no modelled operation reads.
pub record Ipo (F : Type 0) : Type 0 where
  pub id : ℕ
  pub company : String
  pub symbol : String
  pub country : String
  pub status : String
  pub listing_date : String
  pub board : String
  pub issue_size_m : Option F
  pub price_low : Option F
  pub price_high : Option F
  pub final_price : Option F
  pub shares_offered_m : Option F
  pub post_issue_shares_m : Option F
  pub revenue_m : Option F
  pub revenue_prev_m : Option F
  pub revenue_2y_ago_m : Option F
  pub ebitda_m : Option F
  pub net_income_m : Option F
  pub cfo_m : Option F
  pub debt_m : Option F
  pub cash_m : Option F
  pub fresh_issue_pct : Option F
  pub ofs_pct : Option F
  pub promoter_retention_pct : Option F
  pub qib_sub : Option F
  pub nii_sub : Option F
  pub retail_sub : Option F
  pub total_sub : Option F
  pub gmp_pct : Option F
  pub underwriter_quality : Option F
  pub anchor_quality : Option F
  pub market_regime : Option F
  pub sector_regime : Option F
  pub dual_class : Option Bool
  pub lockup_days : Option ℕ
  pub market_overhang_pct : Option F
  pub peer_median_pe : Option F
  pub peer_median_ps : Option F
  pub filing_url : String
  pub data_flags : List String
  -- seconds since the epoch
  pub updated_at : Option ℕ
