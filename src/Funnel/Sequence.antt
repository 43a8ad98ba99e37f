-- ===== src/Funnel/Sequence.antt =====
-- src/funnel/sequence.ts and `sendNonTransactional` of src/mail/compliance.ts: one run of the
-- onboarding sequence. What the mail provider answers, and where an exception is thrown, come from
-- outside: they are functions of the lead's id and step.
use Prim.Native.Nat.{max}
use inbox_angel_worker.Common.{
  ℕ, zero, suc, ◌+◌, ◌-◌, ◌*◌, Bool, true, false, not, ◌&&◌, ◌||◌, List, [], ◌∷◌, ◌++◌, Option,
  none, some, leb, if◌then◌else◌,
}
use inbox_angel_worker.Text.{Text}
use inbox_angel_worker.Funnel.{
  Lead, Leads, converted, bounced, advance, restore, release, set_status, delete, due,
  suppression_has, suppression_add, normalise_email,
}

abbrev pub day : ℕ
day = 86400

abbrev pub catch_up_seconds : ℕ
catch_up_seconds = day - 3600

abbrev pub max_per_run : ℕ
max_per_run = 100

-- `SEQUENCE_DAYS` of src/funnel/copy.ts.
abbrev pub sequence_days : List ℕ
sequence_days = 1 ∷ 3 ∷ 6 ∷ 10 ∷ 14 ∷ []

abbrev nth : ℕ → List ℕ → Option ℕ
nth i [] = none
nth zero (x ∷ xs) = some x
nth (suc i) (x ∷ xs) = nth i xs

-- `needsBookingUrl` of `stepCopy`: the default case of its switch on 0 to 3.
abbrev pub needs_booking_url : ℕ → Bool
needs_booking_url index = leb 4 index

unfoldable pub next_due : ℕ → ℕ → ℕ → Option ℕ
next_due created_at index now = elim (nth index sequence_days) [
  | none ↦ none
  | some d ↦ some (max (created_at + d * day) (now + catch_up_seconds))
]

pub data Blocker : Type 0 where
  sequence_off no_provider no_sender no_base_url no_postal_address : Blocker

pub data Warning : Type 0 where
  no_authserv no_booking_url no_prices no_reply_to : Warning

-- What the configuration functions answer for the environment.
pub record Settings : Type 0 where
  pub enabled : Bool
  pub has_provider : Bool
  pub has_sender : Bool
  pub has_base_url : Bool
  pub has_postal_address : Bool
  pub has_authserv : Bool
  pub has_booking_url : Bool
  pub has_prices : Bool
  pub has_reply_to : Bool

pub record SendReadiness : Type 0 where
  pub enabled : Bool
  pub blockers : List Blocker
  pub warnings : List Warning

abbrev unless {ℓ} : {A : Type ℓ} → Bool → A → List A
unless true a = []
unless false a = a ∷ []

unfoldable pub readiness : Settings → SendReadiness
readiness c =
    if not c.enabled
    then record { enabled = false; blockers = sequence_off ∷ []; warnings = [] }
    else record {
      enabled = true;
      blockers =
          unless c.has_provider no_provider
          ++ (unless c.has_sender no_sender
              ++ (unless c.has_base_url no_base_url
                  ++ unless c.has_postal_address no_postal_address));
      warnings =
          unless c.has_authserv no_authserv
          ++ (unless c.has_booking_url no_booking_url
              ++ (unless c.has_prices no_prices ++ unless c.has_reply_to no_reply_to));
    }

-- What the provider's `send` does with a message.
pub data Answer : Type 0 where
  accepts refuses_recipient is_uncertain refuses_config throws : Answer

pub data Outcome : Type 0 where
  sent suppressed blocked bad_recipient bad_config transient : Outcome

-- Where an exception is thrown while a lead is handled: before the step is marked, between the mark
-- and the provider's answer (and whether the step can be put back then), or by the first or the second
-- statement that stores what the answer means. A statement that throws has changed nothing.
pub data Fault : Type 0 where
  no_fault before_mark before_answer before_answer_stuck first_update second_update : Fault

pub record World : Type 0 where
  pub hash : Text → Text
  pub is_user : Text → Bool
  pub answer : ℕ → ℕ → Answer
  -- An exception inside `sendNonTransactional` before the provider is called.
  pub breaks : ℕ → ℕ → Bool
  pub fault : ℕ → ℕ → Fault

abbrev outcome_of : Answer → Outcome
outcome_of accepts = sent
outcome_of refuses_recipient = bad_recipient
outcome_of is_uncertain = transient
outcome_of refuses_config = bad_config
outcome_of throws = transient

unfoldable pub send_non_transactional : World → Settings → Bool → List Text → ℕ → ℕ → Text → Outcome
send_non_transactional w c require_link hashes id step' email =
    if w.breaks id step'
    then bad_config
    else if suppression_has w.hash hashes (normalise_email email)
    then suppressed
    else if not c.has_base_url && require_link
    then blocked
    else outcome_of (w.answer id step')

pub record RunResult : Type 0 where
  pub sent_count : ℕ
  pub held : ℕ
  pub stopped : ℕ
  pub failed : ℕ

-- The tables, the counts, and the steps that the provider was given and may have delivered.
pub record Run : Type 0 where
  pub leads : Leads
  pub hashes : List Text
  pub result : RunResult
  pub mailed : List (ℕ × ℕ)

abbrev pub add_sent : Run → Run
add_sent r = record r { result = record (r.result) { sent_count = suc (r.result).sent_count } }

abbrev pub add_held : Run → Run
add_held r = record r { result = record (r.result) { held = suc (r.result).held } }

abbrev pub add_stopped : Run → Run
add_stopped r = record r { result = record (r.result) { stopped = suc (r.result).stopped } }

abbrev pub add_failed : Run → Run
add_failed r = record r { result = record (r.result) { failed = suc (r.result).failed } }

abbrev pub with_leads : Leads → Run → Run
with_leads t r = record r { leads = t }

abbrev or_now : Option ℕ → ℕ → ℕ
or_now none now = now
or_now (some t) now = t

-- Put the marked step back, from the row as it was read.
abbrev pub put_back : ℕ → ℕ → Lead → Run → Run
put_back now id l r =
    with_leads (restore id (suc l.step) l.step (or_now l.next_send_at now) l.last_sent_at r.leads) r

abbrev pub log_mailed : ℕ → Lead → Run → Run
log_mailed id l r = record r { mailed = (id, l.step) ∷ r.mailed }

-- The provider has answered; the second part says whether the loop goes on.
unfoldable pub settle : World → ℕ → ℕ → Lead → Outcome → Run → Run × Bool
settle w now id l sent r = (add_sent (log_mailed id l r), true)
settle w now id l suppressed r = (add_stopped (with_leads (delete l.email r.leads) r), true)
settle w now id l bad_recipient r = (
  add_stopped (record r {
    leads = set_status id bounced r.leads;
    hashes = suppression_add w.hash r.hashes l.email;
  }),
  true,
)
settle w now id l blocked r = (add_failed (put_back now id l r), false)
settle w now id l bad_config r = (add_failed (put_back now id l r), false)
settle w now id l transient r = (add_failed (log_mailed id l r), false)

-- The first statement after the answer throws: the step is not put back, the answer having come. An
-- outcome that stores nothing has no such statement.
abbrev pub fail_first : World → ℕ → ℕ → Lead → Outcome → Run → Run × Bool
fail_first w now id l sent r = settle w now id l sent r
fail_first w now id l transient r = settle w now id l transient r
fail_first w now id l _ r = (add_failed r, false)

-- The second one throws. Only a bounce has one, the suppression: the status is stored by then.
abbrev pub fail_second : World → ℕ → ℕ → Lead → Outcome → Run → Run × Bool
fail_second w now id l bad_recipient r =
    (add_failed (with_leads (set_status id bounced r.leads) r), false)
fail_second w now id l out r = settle w now id l out r

-- The exception that is met once the step is marked, if any.
unfoldable pub meet_fault : World → ℕ → ℕ → Lead → Outcome → Fault → Run → Run × Bool
meet_fault w now id l out before_answer r = (add_failed (put_back now id l r), false)
meet_fault w now id l out before_answer_stuck r = (add_failed r, false)
meet_fault w now id l out first_update r = fail_first w now id l out r
meet_fault w now id l out second_update r = fail_second w now id l out r
meet_fault w now id l out before_mark r = settle w now id l out r
meet_fault w now id l out no_fault r = settle w now id l out r

-- The step is marked: send it.
unfoldable pub send_marked : World → Settings → ℕ → ℕ → Lead → Run → Run × Bool
send_marked w c now id l r =
    meet_fault w now id l (send_non_transactional w c true r.hashes id l.step l.email)
      (w.fault id l.step) r

-- `if (!(await q.leads.advance(...))) continue`.
unfoldable pub if_won : World → Settings → ℕ → ℕ → Lead → Bool × Leads → Run → Run × Bool
if_won w c now id l (true, leads') r = send_marked w c now id l (with_leads leads' r)
if_won w c now id l (false, _) r = (r, true)

unfoldable pub mark_and_send : World → Settings → ℕ → ℕ → Lead → Run → Run × Bool
mark_and_send w c now id l r =
    if_won w c now id l (advance id l.step (next_due l.created_at (suc l.step) now) now r.leads) r

abbrev pub fails_early : Fault → Bool
fails_early before_mark = true
fails_early _ = false

-- One lead of the batch, as it was read when the run began.
unfoldable pub handle_lead : World → Settings → ℕ → ℕ × Lead → Run → Run × Bool
handle_lead w c now (id, l) r =
    if fails_early (w.fault id l.step)
    then (add_failed r, false)
    else if suppression_has w.hash r.hashes l.email
    then (add_stopped (with_leads (delete l.email r.leads) r), true)
    else if w.is_user l.email
    then (add_stopped (with_leads (set_status id converted r.leads) r), true)
    else if needs_booking_url l.step && not c.has_booking_url
    then (add_held (with_leads (release id (now + day) r.leads) r), true)
    else mark_and_send w c now id l r

unfoldable pub handle_all : World → Settings → ℕ → List (ℕ × Lead) → Run → Run
handle_all w c now [] r = r
handle_all w c now (l ∷ ls) r =
    let (r', more) = handle_lead w c now l r in
    let rest = handle_all w c now ls r' in if more then rest else r'

abbrev no_result : RunResult
no_result = record { sent_count = 0; held = 0; stopped = 0; failed = 0 }

abbrev pub is_nil {ℓ} : {A : Type ℓ} → List A → Bool
is_nil [] = true
is_nil (_ ∷ _) = false

unfoldable pub run_onboarding_sequence :
    World → Settings → ℕ → ℕ → Leads → List Text → List (ℕ × ℕ) → Run
run_onboarding_sequence w c now limit t hashes mailed =
    let start : Run = record { leads = t; hashes = hashes; result = no_result; mailed = mailed } in
    let check = readiness c in
    if not check.enabled || not (is_nil check.blockers)
    then start
    else handle_all w c now (due now limit t) start
