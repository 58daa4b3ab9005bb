-- ===== src/Sheets/Tests.antt =====
-- Runs of the outbox, and the theorems at concrete outboxes.
use ipointel.Base.{ℕ, ◌≡◌, ◌*◌, refl, true, none, some, List, [], ◌∷◌, take, All}
use ipointel.Sheets.{
  Row, World, SignUp, pending, synced, failed, enqueue, process_outbox, find, sync_status_counts,
  in_order, is_exhausted,
}
use ipointel.Sheets.Reach.{signs_up, passes, Reach, start, next, IsValid, Reach-IsValid}
use ipointel.Sheets.Lookup.{enqueue-find}
use ipointel.Base.{arith}
use ipointel.Sheets.Settled.{process_outbox-keeps_synced}
use ipointel.Sheets.Stuck.{process_outbox_stuck}

abbrev ada : SignUp
ada = record {
  id = 4;
  created_at = some 100;
  email = "ada@example.org";
  name = "Ada";
  investor_type = "";
  markets = "both";
  source = "";
  campaign = "";
  referred_by = "";
  page_path = "/";
  consent = true;
  access_status = "pending";
  clerk_user_id = "";
}

-- The API answers every call.
abbrev world : World
world = record {
  configured = true;
  now = 1_000;
  lead_of = λ lead. some ada;
  iso = λ t. "1970";
  decimal = λ n. "4";
  append = λ values. none;
}

-- The API refuses every call.
abbrev down : World
down = record world { append = λ values. some "HTTPStatusError: 500" }

abbrev signed_up : List Row
signed_up = (enqueue 100 4 []).1

abbrev mirrored : List Row
mirrored = (process_outbox world 25 signed_up).1

mirrored_status :
    sync_status_counts mirrored
    ≡ record { total = 1; synced = 1; pending = 0; failed = 0; last_synced_at = some 1_000 }
unfolding process_outbox enqueue sync_status_counts
mirrored_status = refl

-- A refused row waits for a minute, then is tried again.
refused_then_waits :
    (process_outbox (record world { now = 1_059 }) 25 (process_outbox down 25 signed_up).1).0.synced
    ≡ 0
unfolding process_outbox enqueue
refused_then_waits = refl

reached : Reach mirrored
reached = next (next start (signs_up [] 100 4)) (passes signed_up world 25)

Reach-IsValid_example : IsValid mirrored
Reach-IsValid_example = Reach-IsValid reached

abbrev row : Row
row = record {
  lead_id = 4;
  status = synced;
  attempt_count = 0;
  last_error = "";
  created_at = 100;
  updated_at = 1_000;
  synced_at = some 1_000;
}

found : find 4 mirrored ≡ some row
unfolding process_outbox enqueue find
found = refl

process_outbox-keeps_synced_example : find 4 (process_outbox down 25 mirrored).1 ≡ some row
process_outbox-keeps_synced_example = process_outbox-keeps_synced down 25 4 row reached found refl

-- Three exhausted rows before a new one, and a limit of one.
abbrev worn : ℕ → Row
worn lead = record row { lead_id = lead; status = failed; attempt_count = 8; synced_at = none }

abbrev blocked : List Row
blocked = worn 1 ∷ worn 2 ∷ worn 3 ∷ record row { status = pending; created_at = 900 } ∷ []

all_worn : All (λ r. is_exhausted r ≡ true) (take (1 * 3) (in_order blocked))
unfolding in_order
all_worn = (refl, (refl, (refl, tt)))

process_outbox_stuck_example :
    (process_outbox world 1 blocked).0 ≡ record { processed = 0; synced = 0; failed = 0 }
process_outbox_stuck_example = process_outbox_stuck world 1 blocked all_worn

enqueue-find_example :
    (find 5 (enqueue 200 5 signed_up).1 ≡ some (enqueue 200 5 signed_up).0)
    × (enqueue 300 5 (enqueue 200 5 signed_up).1 ≡ enqueue 200 5 signed_up)
    × (find 4 (enqueue 200 5 signed_up).1 ≡ find 4 signed_up)
enqueue-find_example = enqueue-find 200 300 5 4 signed_up (omega arith)
