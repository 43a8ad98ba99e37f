-- ===== src/Funnel.antt =====
-- packages/db/src/queries/funnel.ts: the table of leads and the suppression list. The table maps the
-- primary key to the row; ids are given in order and never used again.
pub mod Sequence
pub mod Enroll
pub mod Worker
pub mod Once
pub mod Runs
mod Tests
use inbox_angel_worker.Common.{
  ℕ, zero, suc, ◌+◌, Bool, true, false, ◌&&◌, List, [], ◌∷◌, ◌++◌, Option, none, some, leb, ltb,
  ◌==◌, if◌then◌else◌, some_of,
}
use inbox_angel_worker.Text.{Text, text_eq, trim, to_lower}
use mathlib.Core.Option

pub data LeadStatus : Type 0 where
  active completed replied booked converted unsubscribed bounced : LeadStatus

pub record Lead : Type 0 where
  pub email : Text
  pub domain : Text
  pub check_level : Option Text
  pub check_summary : Option Text
  pub created_at : ℕ
  pub last_activity_at : ℕ
  pub step : ℕ
  pub next_send_at : Option ℕ
  pub status : LeadStatus
  pub last_sent_at : Option ℕ

pub record Leads : Type 0 where
  pub rows : ℕ → Option Lead
  pub next_id : ℕ

abbrev pub put : ℕ → Option Lead → Leads → Leads
put id row t = record t { rows = λ j. if j == id then row else t.rows j }

abbrev pub is_active : LeadStatus → Bool
is_active active = true
is_active _ = false

-- `next_send_at <= now`, which NULL fails.
abbrev pub is_due : Option ℕ → ℕ → Bool
is_due none now = false
is_due (some t) now = leb t now

-- The suppression list holds the hash of the normalised address.
abbrev pub normalise_email : Text → Text
normalise_email e = to_lower (trim e)

unfoldable pub suppression_has : (Text → Text) → List Text → Text → Bool
unfolding text_eq to_lower trim
suppression_has hash hashes email = some_of (text_eq (hash (normalise_email email))) hashes

unfoldable pub suppression_add : (Text → Text) → List Text → Text → List Text
unfolding suppression_has
suppression_add hash hashes email =
    if suppression_has hash hashes email then hashes else hash (normalise_email email) ∷ hashes

-- The ids below `n` whose row passes the test, in order.
unfoldable pub ids_where : (Lead → Bool) → ℕ → Leads → List ℕ
ids_where test zero t = []
ids_where test (suc n) t =
    ids_where test n t ++ elim (t.rows n) [ none ↦ [] | some l ↦ if test l then n ∷ [] else [] ]

abbrev first_id : List ℕ → Option ℕ
first_id [] = none
first_id (id ∷ _) = some id

unfoldable pub id_of_email : Text → Leads → Option ℕ
unfolding ids_where text_eq
id_of_email email t = first_id (ids_where (λ l. text_eq l.email email) t.next_id t)

pub record LeadUpsert : Type 0 where
  pub email : Text
  pub domain : Text
  pub check_level : Option Text
  pub check_summary : Option Text
  pub first_send_at : ℕ
  pub now : ℕ

abbrev pub new_lead : LeadUpsert → Lead
new_lead l = record {
  email = l.email;
  domain = l.domain;
  check_level = l.check_level;
  check_summary = l.check_summary;
  created_at = l.now;
  last_activity_at = l.now;
  step = 0;
  next_send_at = some l.first_send_at;
  status = active;
  last_sent_at = none;
}

abbrev pub refresh : LeadUpsert → Lead → Lead
refresh l row = record row {
  domain = l.domain;
  check_level = l.check_level;
  check_summary = l.check_summary;
  last_activity_at = l.now;
}

-- True when the lead was created.
unfoldable pub upsert : LeadUpsert → Leads → Bool × Leads
unfolding id_of_email
upsert l t = elim (id_of_email l.email t) [
  | some id ↦ (false, put id (Option.map (refresh l) (t.rows id)) t)
  | none ↦ (true, record (put t.next_id (some (new_lead l)) t) { next_id = suc t.next_id })
]

abbrev due_key : Leads → ℕ → ℕ
due_key t id = elim (t.rows id) [
  | none ↦ 0
  | some l ↦ elim l.next_send_at [ none ↦ 0 | some at ↦ at ]
]

unfoldable pub insert_due : Leads → ℕ → List ℕ → List ℕ
insert_due t id [] = id ∷ []
insert_due t id (j ∷ js) =
    let rest = insert_due t id js in
    if leb (due_key t id) (due_key t j) then id ∷ j ∷ js else j ∷ rest

unfoldable pub sort_due : Leads → List ℕ → List ℕ
unfolding insert_due
sort_due t [] = []
sort_due t (id ∷ ids) = insert_due t id (sort_due t ids)

take_rows : ℕ → Leads → List ℕ → List (ℕ × Lead)
take_rows zero t ids = []
take_rows (suc n) t [] = []
take_rows (suc n) t (id ∷ ids) = elim (t.rows id) [
  | none ↦ take_rows n t ids
  | some l ↦ (id, l) ∷ take_rows n t ids
]

-- The active leads that are due, oldest due time first, at most `limit` of them.
unfoldable pub due : ℕ → ℕ → Leads → List (ℕ × Lead)
unfolding take_rows sort_due ids_where
due now limit t =
    take_rows limit t
      (sort_due t (ids_where (λ l. is_active l.status && is_due l.next_send_at now) t.next_id t))

abbrev after_send : Option ℕ → ℕ → Lead → Lead
after_send next now l = record l {
  step = suc l.step;
  next_send_at = next;
  last_sent_at = some now;
  status = elim next [ none ↦ completed | some _ ↦ active ];
}

-- Compare and set: true for the caller whose step and due time still match.
unfoldable pub advance : ℕ → ℕ → Option ℕ → ℕ → Leads → Bool × Leads
advance id step' next now t = elim (t.rows id) [
  | none ↦ (false, t)
  | some l ↦
      if is_active l.status && l.step == step' && is_due l.next_send_at now
      then (true, put id (some (after_send next now l)) t)
      else (false, t)
]

unfoldable pub restore : ℕ → ℕ → ℕ → ℕ → Option ℕ → Leads → Leads
restore id advanced_to step' next_send last_sent t = elim (t.rows id) [
  | none ↦ t
  | some l ↦
      if l.step == advanced_to
      then put id
          (some (record l {
            step = step';
            next_send_at = some next_send;
            last_sent_at = last_sent;
            status = active;
          }))
          t
      else t
]

abbrev pub push_out : ℕ → Lead → Lead
push_out next_send l = record l { next_send_at = some next_send }

abbrev pub stop_with : LeadStatus → Lead → Lead
stop_with s l = record l { status = s; next_send_at = none }

unfoldable pub release : ℕ → ℕ → Leads → Leads
release id next_send t = put id (Option.map (push_out next_send) (t.rows id)) t

unfoldable pub set_status : ℕ → LeadStatus → Leads → Leads
set_status id s t = put id (Option.map (stop_with s) (t.rows id)) t

abbrev pub without : Text → Option Lead → Option Lead
without email none = none
without email (some l) = if text_eq l.email email then none else some l

unfoldable pub delete : Text → Leads → Leads
unfolding text_eq
delete email t = record t { rows = λ j. without email (t.rows j) }

abbrev pub without_old : ℕ → Option Lead → Option Lead
without_old cutoff none = none
without_old cutoff (some l) = if ltb l.last_activity_at cutoff then none else some l

unfoldable pub delete_inactive_before : ℕ → Leads → Leads
delete_inactive_before cutoff t = record t { rows = λ j. without_old cutoff (t.rows j) }
