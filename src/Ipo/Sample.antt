-- ===== src/Ipo/Sample.antt =====
-- A row for the tests, over fixed-point numbers.
use ipointel.Base.{none, some, [], false}
use ipointel.Base.Int.{ℤ, pos}
use ipointel.Ipo.{Ipo}

-- An Indian issue with every input of the confidence figure on record; numbers in millionths.
abbrev pub complete : Ipo ℤ
complete = record {
  id = 7;
  company = "Acme Limited";
  symbol = "ACME";
  country = "india";
  status = "Open";
  listing_date = "";
  board = "";
  issue_size_m = none;
  price_low = some (pos 95_000_000);
  price_high = some (pos 100_000_000);
  final_price = none;
  shares_offered_m = some (pos 5_000_000);
  post_issue_shares_m = some (pos 20_000_000);
  revenue_m = some (pos 900_000_000);
  revenue_prev_m = some (pos 700_000_000);
  revenue_2y_ago_m = some (pos 600_000_000);
  ebitda_m = some (pos 180_000_000);
  net_income_m = some (pos 100_000_000);
  cfo_m = some (pos 110_000_000);
  debt_m = some (pos 50_000_000);
  cash_m = some (pos 40_000_000);
  fresh_issue_pct = some (pos 60_000_000);
  ofs_pct = some (pos 40_000_000);
  promoter_retention_pct = some (pos 65_000_000);
  qib_sub = some (pos 12_000_000);
  nii_sub = some (pos 8_000_000);
  retail_sub = some (pos 4_000_000);
  total_sub = some (pos 9_000_000);
  gmp_pct = none;
  underwriter_quality = none;
  anchor_quality = some (pos 4_000_000);
  market_regime = some (pos 3_000_000);
  sector_regime = some (pos 3_000_000);
  dual_class = some false;
  lockup_days = none;
  market_overhang_pct = none;
  peer_median_pe = some (pos 25_000_000);
  peer_median_ps = none;
  filing_url = "www.sebi.gov.in";
  data_flags = [];
  updated_at = some 864_000;
}

-- The same issue with no filing and no revenue on record.
abbrev pub sparse : Ipo ℤ
sparse = record complete { filing_url = ""; revenue_m = none; qib_sub = none }
