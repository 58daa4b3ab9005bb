-- ===== src/Sheets.antt =====
-- app/services/sheets_sync.py: the outbox that mirrors leads into a spreadsheet. The outbox is its list
-- of rows. Whether the integration is configured, the rows of the leads, and the answers of the Sheets
-- API are parameters. Times are seconds; one pass reads the clock as one time.
pub mod Rows
pub mod Reach
pub mod Lookup
pub mod Settled
pub mod Stuck
mod Tests
use Prim.Native.Nat.{◌^◌}
use ipointel.Base.Text.{clip}
use ipointel.Base.{
  ℕ, zero, suc, ◌+◌, ◌*◌, String, Bool, true, false, not, ◌&&◌, ◌||◌, Option, none, some, List, [],
  ◌∷◌, ◌++◌, min, ltb, leb, ◌==◌, if◌then◌else◌, length, take, any,
}

pub data Status : Type 0 where
  pending synced failed disabled : Status

-- `SheetsSyncOutbox`
pub record Row : Type 0 where
  pub lead_id : ℕ
  pub status : Status
  pub attempt_count : ℕ
  pub last_error : String
  pub created_at : ℕ
  pub updated_at : ℕ
  pub synced_at : Option ℕ

-- The fields of `WaitlistLead` that are mirrored.
pub record SignUp : Type 0 where
  pub id : ℕ
  pub created_at : Option ℕ
  pub email : String
  pub name : String
  pub investor_type : String
  pub markets : String
  pub source : String
  pub campaign : String
  pub referred_by : String
  pub page_path : String
  pub consent : Bool
  pub access_status : String
  pub clerk_user_id : String

abbrev pub max_attempts : ℕ
max_attempts = 8

abbrev pub is_pending : Status → Bool
is_pending pending = true
is_pending _ = false

abbrev pub is_synced : Status → Bool
is_synced synced = true
is_synced _ = false

abbrev pub is_failed : Status → Bool
is_failed failed = true
is_failed _ = false

-- `status.in_(["PENDING", "FAILED"])`
abbrev pub is_waiting : Status → Bool
is_waiting s = is_pending s || is_failed s

abbrev pub is_of : ℕ → Row → Bool
is_of lead r = r.lead_id == lead

unfoldable pub find : ℕ → List Row → Option Row
find lead [] = none
find lead (r ∷ rows) = let rest = find lead rows in if is_of lead r then some r else rest

abbrev pub new_row : ℕ → ℕ → Row
new_row now lead = record {
  lead_id = lead;
  status = pending;
  attempt_count = 0;
  last_error = "";
  created_at = now;
  updated_at = now;
  synced_at = none;
}

-- `enqueue`, with the row that it returns
unfoldable pub enqueue : ℕ → ℕ → List Row → Row × List Row
unfolding find
enqueue now lead rows = elim (find lead rows) [
  | none ↦ (new_row now lead, rows ++ new_row now lead ∷ [])
  | some row ↦ (row, rows)
]

-- `now - last < wait` is written `now < last + wait`.
unfoldable pub within_backoff : ℕ → Row → Bool
within_backoff now r =
    if r.attempt_count == 0
    then false
    else ltb now (r.updated_at + min 3600 (2 ^ r.attempt_count * 30))

-- `isoformat` of a time and `str` of a number are parameters.
unfoldable pub build_row : (ℕ → String) → (ℕ → String) → SignUp → List String
build_row iso decimal lead =
    elim lead.created_at [ none ↦ "" | some t ↦ iso t ]
    ∷ lead.email
    ∷ lead.name
    ∷ lead.investor_type
    ∷ lead.markets
    ∷ lead.source
    ∷ lead.campaign
    ∷ lead.referred_by
    ∷ lead.page_path
    ∷ (if lead.consent then "yes" else "no")
    ∷ lead.access_status
    ∷ lead.clerk_user_id
    ∷ decimal lead.id
    ∷ []

-- `processed`, and the `result` of a pass.
pub record Pass : Type 0 where
  pub processed : ℕ
  pub synced : ℕ
  pub failed : ℕ

-- What a pass reads: `append` is `_append_row`, with the text of the exception where it raises.
pub record World : Type 0 where
  pub configured : Bool
  pub now : ℕ
  pub lead_of : ℕ → Option SignUp
  pub iso : ℕ → String
  pub decimal : ℕ → String
  pub append : List String → Option String

abbrev pub before : Row → Row → Bool
before a b = leb a.created_at b.created_at

unfoldable pub insert : Row → List Row → List Row
insert r [] = r ∷ []
insert r (x ∷ xs) = let rest = insert r xs in if before r x then r ∷ x ∷ xs else x ∷ rest

-- The waiting rows, oldest first.
unfoldable pub in_order : List Row → List Row
unfolding insert
in_order [] = []
in_order (r ∷ rows) =
    let rest = in_order rows in if is_waiting r.status then insert r rest else rest

-- The pass works on the rows themselves: a row that it touched is found by its lead.
unfoldable pub newest : Row → List Row → Row
newest r [] = r
newest r (d ∷ done) = let rest = newest r done in if is_of r.lead_id d then d else rest

unfoldable pub write_back : List Row → List Row → List Row
unfolding newest
write_back done [] = []
write_back done (r ∷ rows) = newest r done ∷ write_back done rows

abbrev pub is_exhausted : Row → Bool
is_exhausted r = is_failed r.status && leb max_attempts r.attempt_count

module _ (w : World) where
  -- After `_append_row`: it returned, or it raised with a text.
  unfoldable pub settle : Option String → Row → Pass → Pass × Row
  settle none r p = (
    record p { processed = p.processed + 1; synced = p.synced + 1 },
    record r { status = synced; synced_at = some w.now; last_error = ""; updated_at = w.now },
  )
  settle (some error) r p = (
    record p { processed = p.processed + 1; failed = p.failed + 1 },
    record r {
      attempt_count = r.attempt_count + 1;
      last_error = clip 2000 error;
      status = failed;
      updated_at = w.now;
    },
  )

  unfoldable pub mirror : Option SignUp → Row → Pass → Pass × Row
  unfolding settle build_row
  mirror none r p =
      (p, record r { status = failed; last_error = "lead no longer exists"; updated_at = w.now })
  mirror (some lead) r p = settle (w.append (build_row w.iso w.decimal lead)) r p

  -- The body of the loop, below its limit test.
  unfoldable pub step : Row → Pass → Pass × Row
  unfolding mirror within_backoff
  step r p =
      if is_exhausted r || within_backoff w.now r then (p, r) else mirror (w.lead_of r.lead_id) r p

  -- The loop; it breaks once `limit` rows were processed.
  unfoldable pub run : ℕ → List Row → Pass → Pass × List Row
  unfolding step
  run limit [] p = (p, [])
  run limit (r ∷ rows) p =
      let (p', r') = step r p in
      let (p'', rows') = run limit rows p' in
      if leb limit p.processed then (p, r ∷ rows) else (p'', r' ∷ rows')

  unfoldable pub process_outbox : ℕ → List Row → Pass × List Row
  unfolding run write_back in_order
  process_outbox limit rows =
      let start : Pass = record { processed = 0; synced = 0; failed = 0 } in
      let (p, done) = run limit (take (limit * 3) (in_order rows)) start in
      if w.configured then (p, write_back done rows) else (start, rows)

-- The loop of `retry_failed`, with how many rows it reset.
unfoldable pub retry_failed : ℕ → List Row → ℕ × List Row
retry_failed now [] = (0, [])
retry_failed now (r ∷ rows) =
    let (n, rest) = retry_failed now rows in
    if is_failed r.status
    then (n + 1, record r { status = pending; attempt_count = 0; updated_at = now } ∷ rest)
    else (n, r ∷ rest)

-- `sync_status_counts`, without the configuration flag.
pub record Counts : Type 0 where
  pub total : ℕ
  pub synced : ℕ
  pub pending : ℕ
  pub failed : ℕ
  pub last_synced_at : Option ℕ

abbrev pub count : (Status → Bool) → List Row → ℕ
count test [] = 0
count test (r ∷ rows) = (if test r.status then 1 else 0) + count test rows

abbrev pub later : Option ℕ → Option ℕ → Option ℕ
later none b = b
later (some a) none = some a
later (some a) (some b) = some (if ltb a b then b else a)

abbrev pub last_sync : List Row → Option ℕ
last_sync [] = none
last_sync (r ∷ rows) =
    if is_synced r.status then later r.synced_at (last_sync rows) else last_sync rows

unfoldable pub sync_status_counts : List Row → Counts
sync_status_counts rows = record {
  total = length rows;
  synced = count is_synced rows;
  pending = count is_pending rows;
  failed = count is_failed rows;
  last_synced_at = last_sync rows;
}
