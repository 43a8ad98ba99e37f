-- ===== src/Funnel/Tests.antt =====
-- src/funnel/sequence.ts on a table with one lead that is due.
use inbox_angel_worker.Common.{
  ◌⊎◌, ◌≤◌, ◌≡◌, refl, arith, true, false, [], ◌∷◌, some, none, ◌==◌, if◌then◌else◌,
}
use inbox_angel_worker.Text.{codes, to_lower, trim, trim_start, is_space, cut, text_eq}
use inbox_angel_worker.Funnel.{
  normalise_email, suppression_add, delete, Lead, Leads, active, bounced, set_status, due, advance,
  suppression_has,
}
use inbox_angel_worker.Funnel.Sequence.{
  World, Settings, Run, accepts, refuses_recipient, second_update, no_fault,
  run_onboarding_sequence, handle_all, handle_lead, mark_and_send, if_won, send_marked, meet_fault,
  settle, send_non_transactional, readiness, next_due,
}
use inbox_angel_worker.Funnel.Enroll.{
  Contacts, EnrollInput, is_email, enroll_lead, unsubscribe_email, suppressed_address, disabled,
  enroll_lead-unsubscribe_email, handle_lead-unsubscribe_email,
}
use inbox_angel_worker.Funnel.Worker.{Sending, count, Reach}
use inbox_angel_worker.Funnel.Once.{Inv, Reach-once}
use inbox_angel_worker.Funnel.Runs.{run_onboarding_sequence-Reach, sending}

abbrev anna : Lead
anna = record {
  email = codes "anna@x.test";
  domain = codes "x.test";
  check_level = none;
  check_summary = none;
  created_at = 1000;
  last_activity_at = 1000;
  step = 0;
  next_send_at = some 87400;
  status = active;
  last_sent_at = none;
}

abbrev table : Leads
table = record { rows = λ id. if id == 0 then some anna else none; next_id = 1 }

abbrev all_set : Settings
all_set = record {
  enabled = true;
  has_provider = true;
  has_sender = true;
  has_base_url = true;
  has_postal_address = true;
  has_authserv = true;
  has_booking_url = true;
  has_prices = true;
  has_reply_to = true;
}

abbrev calm : World
calm = record {
  hash = λ s. s;
  is_user = λ _. false;
  answer = λ _ _. accepts;
  breaks = λ _ _. false;
  fault = λ _ _. no_fault;
}

abbrev one_run : Run
one_run = run_onboarding_sequence calm all_set 90000 100 table [] []

runs : Unit {0}
unfolding run_onboarding_sequence handle_all handle_lead mark_and_send if_won send_marked meet_fault
    settle send_non_transactional readiness next_due due advance suppression_has
runs = tt

one_run_mails : one_run.mailed ≡ (0, 0) ∷ []
unfolding runs
one_run_mails = refl

-- The address bounces, and then the suppression cannot be stored: the lead is bounced all the same.
abbrev half_bounced : Run
half_bounced =
    run_onboarding_sequence
      (record calm { answer = λ _ _. refuses_recipient; fault = λ _ _. second_update }) all_set
      90000 100 table [] []

half_bounced_stops :
    (half_bounced.hashes ≡ [])
    × (half_bounced.leads.rows 0
        ≡ some (record anna {
          step = 1;
          next_send_at = none;
          status = bounced;
          last_sent_at = some 90000;
        }))
unfolding runs set_status
half_bounced_stops = (refl, refl)

abbrev start : Sending
start = record { leads = table; flying = []; mailed = [] }

start-Inv : Inv start
start-Inv = record {
  once = λ id s. omega arith;
  ahead = λ id l row s le. refl;
  unused = λ id s le. refl;
  bounded = λ id l row. ground arith;
}

run_onboarding_sequence-Reach_example : Reach start (sending one_run [])
run_onboarding_sequence-Reach_example =
    run_onboarding_sequence-Reach calm all_set 90000 100 table [] [] []

Reach-once_example : count 0 0 one_run.mailed ≤ 1
Reach-once_example =
    Reach-once start (sending one_run [])
      (run_onboarding_sequence-Reach calm all_set 90000 100 table [] [] []) start-Inv 0 0

abbrev contacts : Contacts
contacts = record { leads = table; hashes = []; alerts = codes "anna@x.test" ∷ [] }

abbrev again : EnrollInput
again = record {
  email = codes "ANNA@x.test";
  domain = codes "x.test";
  status = codes "none";
  summary = codes "{}";
}

names : Unit {0}
unfolding is_email enroll_lead unsubscribe_email to_lower trim trim_start is_space cut text_eq
    suppression_add suppression_has delete
names = tt

an_address : is_email (codes "anna@x.test") ≡ true
unfolding names
an_address = refl

not_an_address : is_email (codes "anna@xtest.") ≡ false
unfolding names
not_an_address = refl

same_address : normalise_email (codes "Anna@x.test ") ≡ normalise_email again.email
unfolding names
same_address = refl

abbrev gone : Run
gone = record {
  leads = table;
  hashes = (unsubscribe_email calm.hash (codes "Anna@x.test ") contacts).hashes;
  result = one_run.result;
  mailed = [];
}

anna_is_normal :
    normalise_email (normalise_email (codes "Anna@x.test ")) ≡ normalise_email anna.email
unfolding names
anna_is_normal = refl

enroll_lead-unsubscribe_email_example :
    ((enroll_lead calm.hash true again 5000
        (unsubscribe_email calm.hash (codes "Anna@x.test ") contacts)).1
      ≡ unsubscribe_email calm.hash (codes "Anna@x.test ") contacts)
    × (((enroll_lead calm.hash true again 5000
            (unsubscribe_email calm.hash (codes "Anna@x.test ") contacts)).0
          ≡ suppressed_address)
        ⊎ ((enroll_lead calm.hash true again 5000
              (unsubscribe_email calm.hash (codes "Anna@x.test ") contacts)).0
            ≡ disabled))
enroll_lead-unsubscribe_email_example =
    enroll_lead-unsubscribe_email calm.hash true (codes "Anna@x.test ") again 5000 contacts
      same_address

handle_lead-unsubscribe_email_example :
    (handle_lead calm all_set 90000 (0, anna) gone).0.mailed ≡ []
handle_lead-unsubscribe_email_example =
    handle_lead-unsubscribe_email calm all_set 90000 0 anna (codes "Anna@x.test ") contacts gone
      anna_is_normal refl
