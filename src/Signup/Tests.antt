-- ===== src/Signup/Tests.antt =====
-- Runs of the route, and the theorems at concrete sites.
use ipointel.Base.{◌≡◌, refl, String, true, some, [], any}
use ipointel.RateLimit.{init, hit, decide, prune, prepare}
use ipointel.Sheets.{find, new_row}
use ipointel.Signup.{
  Payload, Site, Answer, reserved, server_error, already, thanked, find_email, new_subscriber,
  waitlist, admit, sign_up, come_back,
}
use ipointel.Signup.Mail.{is_welcome}
use ipointel.Signup.Valid.{IsValid, waitlist-IsValid}
use ipointel.Signup.Stored.{waitlist_stores}

abbrev ada : Payload
ada = record {
  email = "ada@example.org";
  name = "Ada";
  investor_type = "retail";
  markets = "both";
  consent = true;
  referred_by = "";
  source = "";
  campaign = "";
  page_path = "/";
  website = "";
}

abbrev same : String → String
same text = text

abbrev opened : Site
opened = record {
  limiter = init 10_000 500;
  subscribers = [];
  next_lead = 1;
  mail = record { committed = []; rows = []; next_id = 1 };
  outbox = [];
}

abbrev posted : Answer × Site
posted = waitlist same same ada "waitlist:1.2.3.4" 5 100 "Xy12" "token" opened

abbrev joined : Site
joined = (sign_up ada 100 "ada@example.org" "Xy12" "token" opened).1

opened-IsValid : IsValid opened
opened-IsValid = record {
  emails = tt;
  codes = tt;
  tokens = tt;
  leads = tt;
  messages = tt;
  committed = tt;
  outbox = tt;
}

-- The second call finds the lead of the first one.
joined_twice :
    (admit ada 101 "ada@example.org" "Zz99" "other"
      (find_email "ada@example.org" joined.subscribers)
      joined).0
    ≡ already "Xy12"
unfolding admit find_email sign_up come_back
joined_twice = refl

-- A code that is drawn a second time is refused by the table, and the caller gets the error.
joined_with_code :
    (sign_up
      (record ada { email = "bob@example.org" })
      101
      "bob@example.org"
      "Xy12"
      "other"
      joined).0
    ≡ server_error
unfolding sign_up
joined_with_code = refl

-- A filled honeypot is thanked, and nothing is kept.
honeypot :
    waitlist same same
      (record ada { website = "spam" })
      "waitlist:1.2.3.4"
      5
      100
      "Xy12"
      "token"
      opened
    ≡ (thanked, opened)
unfolding waitlist
honeypot = refl

waitlist-IsValid_example : IsValid posted.1
waitlist-IsValid_example =
    waitlist-IsValid same same ada "waitlist:1.2.3.4" 5 100 "Xy12" "token" opened opened-IsValid

waitlist_stores_example :
    (posted.0 ≡ reserved "Xy12")
    × ((find_email "ada@example.org" posted.1.subscribers
          ≡ some (new_subscriber ada "ada@example.org" "Xy12" "token" 1))
        × ((any (is_welcome 1) posted.1.mail.committed ≡ true)
            × (find 1 posted.1.outbox ≡ some (new_row 100 1))))
unfolding hit decide prune prepare init find_email
waitlist_stores_example =
    waitlist_stores same same ada "waitlist:1.2.3.4" 5 100 "Xy12" "token" opened opened-IsValid refl
      refl refl refl tt
