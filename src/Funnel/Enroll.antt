-- ===== src/Funnel/Enroll.antt =====
-- src/funnel/enroll.ts: enrolment, unsubscribe and manual stops. The addresses of the change alerts
-- are the list of those of every workspace.
use inbox_angel_worker.Common.{
  ℕ, ◌+◌, ◌*◌, ◌≡◌, refl, ap, Bool, true, false, not, ◌&&◌, ◌||◌, ◌⊎◌, inl, inr, List, [], ◌∷◌,
  none, some, ◌==◌, if◌then◌else◌, some_of, keep, Bool-cases,
}
use inbox_angel_worker.Text.{Text, text_eq, to_lower, is_empty, is_space, cut}
use inbox_angel_worker.Text.Equal.{text_eq_refl}
use inbox_angel_worker.Funnel.{
  Lead, Leads, LeadStatus, replied, booked, converted, is_active, normalise_email, suppression_has,
  suppression_add, upsert, delete, set_status, id_of_email,
}
use inbox_angel_worker.Funnel.Sequence.{World, Settings, Run, day, handle_lead, fails_early}

pub data EnrollResult : Type 0 where
  enrolled existing inactive suppressed_address disabled : EnrollResult

-- A point with a code unit after it.
abbrev pub has_point : Text → Bool
has_point [] = false
has_point (c ∷ []) = false
has_point (c ∷ d ∷ s) = c == b'.' || has_point (d ∷ s)

abbrev pub has_inner_point : Text → Bool
has_inner_point [] = false
has_inner_point (_ ∷ s) = has_point s

abbrev pub is_clean : Text → Bool
is_clean s = not (some_of (λ c. is_space c || c == b'@') s)

-- `EMAIL_RE`.
unfoldable pub is_email : Text → Bool
is_email e = elim (cut b'@' e) [
  | none ↦ false
  | some (local, host) ↦
      not (is_empty local) && (is_clean local && (is_clean host && has_inner_point host))
]

pub record EnrollInput : Type 0 where
  pub email : Text
  pub domain : Text
  pub status : Text
  pub summary : Text

-- The leads, the hashes of the suppressed addresses, and the addresses of change alerts.
pub record Contacts : Type 0 where
  pub leads : Leads
  pub hashes : List Text
  pub alerts : List Text

unfoldable pub status_at : Text → Leads → Bool
status_at email t = elim (id_of_email email t) [
  | none ↦ false
  | some id ↦ elim (t.rows id) [ none ↦ false | some l ↦ is_active l.status ]
]

abbrev pub after_upsert : Text → Bool × Leads → Contacts → EnrollResult × Contacts
after_upsert email (true, t) k = (enrolled, record k { leads = t })
after_upsert email (false, t) k =
    (if status_at email t then existing else inactive, record k { leads = t })

unfoldable pub enroll_lead :
    (Text → Text) → Bool → EnrollInput → ℕ → Contacts → EnrollResult × Contacts
enroll_lead hash enabled i now k =
    let email' = normalise_email i.email in
    if not enabled
    then (disabled, k)
    else if not (is_email email')
    then (disabled, k)
    else if suppression_has hash k.hashes email'
    then (suppressed_address, k)
    else after_upsert email'
        (upsert
          (record {
            email = email';
            domain = to_lower i.domain;
            check_level = some i.status;
            check_summary = some i.summary;
            first_send_at = now + 1 * day;
            now = now;
          })
          k.leads)
        k

unfoldable pub unsubscribe_email : (Text → Text) → Text → Contacts → Contacts
unsubscribe_email hash raw k =
    let email = normalise_email raw in
    record {
      leads = delete email k.leads;
      hashes = suppression_add hash k.hashes email;
      alerts = keep (λ a. not (text_eq a email)) k.alerts;
    }

pub data ManualStop : Type 0 where
  stop_replied stop_booked stop_converted : ManualStop

abbrev pub status_for : ManualStop → LeadStatus
status_for stop_replied = replied
status_for stop_booked = booked
status_for stop_converted = converted

unfoldable pub stop_lead : ℕ → ManualStop → Leads → Bool × Leads
stop_lead id reason t = elim (t.rows id) [
  | none ↦ (false, t)
  | some _ ↦ (true, set_status id (status_for reason) t)
]

suppression_has-add :
    (hash : Text → Text) (hs : List Text) (e e' : Text)
    → normalise_email e ≡ normalise_email e'
    → suppression_has hash (suppression_add hash hs e) e' ≡ true
unfolding suppression_add suppression_has
suppression_has-add hash hs e e' same =
    elim (Bool-cases (some_of (text_eq (hash (normalise_email e))) hs)) [
      | inl h ↦ rw (h, ← same) h
      | inr h ↦ rw (h, ← same) (rw (text_eq_refl (hash (normalise_email e))) refl)
    ]

-- Once an address is unsubscribed, enrolling it again, however it is written, answers that it is
-- suppressed, or that the sequence is off or the address none, and changes nothing.
pub enroll_lead-unsubscribe_email :
    (hash : Text → Text) (enabled : Bool) (raw : Text) (i : EnrollInput) (now : ℕ) (k : Contacts)
    → normalise_email raw ≡ normalise_email i.email
    → ((enroll_lead hash enabled i now (unsubscribe_email hash raw k)).1
        ≡ unsubscribe_email hash raw k)
      × (((enroll_lead hash enabled i now (unsubscribe_email hash raw k)).0 ≡ suppressed_address)
          ⊎ ((enroll_lead hash enabled i now (unsubscribe_email hash raw k)).0 ≡ disabled))
unfolding enroll_lead
enroll_lead-unsubscribe_email hash enabled raw i now k same =
    let has : suppression_has hash (unsubscribe_email hash raw k).hashes (normalise_email i.email)
        ≡ true =
      unfold unsubscribe_email in
      suppression_has-add hash k.hashes (normalise_email raw) (normalise_email i.email)
        (ap normalise_email same) in
    elim (Bool-cases enabled) [
      | inr e ↦ rw e (refl, inr refl)
      | inl e ↦ rw e (elim (Bool-cases (is_email (normalise_email i.email))) [
        | inr f ↦ rw f (refl, inr refl)
        | inl f ↦ rw (f, has) (refl, inl refl)
      ])
    ]

-- A run that has read a lead before its address was unsubscribed, and comes to it after, mails
-- nothing to it.
pub handle_lead-unsubscribe_email :
    (w : World) (c : Settings) (now id : ℕ) (l : Lead) (raw : Text) (k : Contacts) (r : Run)
    → normalise_email (normalise_email raw) ≡ normalise_email l.email
    → r.hashes ≡ (unsubscribe_email w.hash raw k).hashes
    → (handle_lead w c now (id, l) r).0.mailed ≡ r.mailed
unfolding handle_lead
handle_lead-unsubscribe_email w c now id l raw k r same at =
    let has : suppression_has w.hash r.hashes l.email ≡ true = rw at (
      unfold unsubscribe_email in
      suppression_has-add w.hash k.hashes (normalise_email raw) l.email same) in
    elim (Bool-cases (fails_early (w.fault id l.step))) [
      | inl e ↦ rw e refl
      | inr e ↦ rw (e, has) refl
    ]
