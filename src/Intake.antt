-- ===== src/Intake.antt =====
-- packages/db/src/queries/intake.ts: what reporters may send to a domain's address in a day. The table is
-- a list of rows in the order of their insertion, and a key names at most one row.
pub mod Address
pub mod Mail
pub mod Total
pub mod Quota
pub mod Routes
pub mod Delivered
mod Tests
use inbox_angel_worker.Common.{
  ℕ, suc, ◌+◌, ◌-◌, Bool, true, false, not, ◌&&◌, ◌||◌, List, [], ◌∷◌, ◌++◌, Option, none, some,
  leb, ltb, ◌==◌, if◌then◌else◌, some_of, keep, find, change, length,
}
use inbox_angel_worker.Text.{Text, codes, text_eq, starts_with}

-- A row of `intake_usage`.
pub record Usage : Type 0 where
  pub domain : ℕ
  pub workspace : Text
  pub day : Text
  pub reporter : Text
  pub reports : ℕ
  pub bytes : ℕ

-- Whose allowance: the domain of a workspace, on a day.
pub record Slot : Type 0 where
  pub workspace : Text
  pub domain : ℕ
  pub day : Text

pub record Allowance : Type 0 where
  pub max_reports : ℕ
  pub max_bytes : ℕ

abbrev pub total_row : Text
total_row = codes "*"

abbrev pub is_unproven : Text → Bool
is_unproven reporter = starts_with (codes "~") reporter

-- The primary key.
abbrev pub is_row : Slot → Text → Usage → Bool
is_row s reporter u = u.domain == s.domain && (text_eq u.day s.day && text_eq u.reporter reporter)

abbrev pub is_day_row : Slot → Usage → Bool
is_day_row s u = text_eq u.workspace s.workspace && (u.domain == s.domain && text_eq u.day s.day)

abbrev pub is_unknown : Slot → Bool → List Text → Usage → Bool
is_unknown s unproven well_known u =
    is_day_row s u
    && (same_kind unproven (is_unproven u.reporter)
        && (not (text_eq u.reporter total_row) && not (some_of (text_eq u.reporter) well_known)))
  where
    same_kind : Bool → Bool → Bool
    same_kind true b = b
    same_kind false b = not b

abbrev pub less_used : Usage → Usage → Bool
less_used a b = ltb a.reports b.reports || a.reports == b.reports && ltb a.bytes b.bytes

abbrev pub lesser : Usage → Option Usage → Usage
lesser u none = u
lesser u (some v) = if less_used v u then v else u

-- `orderBy(reports, bytes).limit(1)`; of equals the first.
abbrev pub least_used : List Usage → Option Usage
least_used [] = none
least_used (u ∷ us) = some (lesser u (least_used us))

abbrev pub drop_victim : Slot → Option Usage → List Usage → List Usage
drop_victim s none us = us
drop_victim s (some v) us = keep (λ u. not (is_day_row s u && text_eq u.reporter v.reporter)) us

-- All slots are taken: an unproven sender uses the overflow bucket, a proven one takes the place of the
-- least used.
abbrev pub overflow : Slot → List Text → Text → Bool → List Usage → Text × List Usage
overflow s well_known reporter true us = (codes "~", us)
overflow s well_known reporter false us =
    (reporter, drop_victim s (least_used (keep (is_unknown s false well_known) us)) us)

unfoldable pub make_room : Slot → List Text → ℕ → Text → List Usage → Text × List Usage
make_room s well_known max_distinct reporter us =
    let unproven = is_unproven reporter in
    let known = not unproven && some_of (text_eq reporter) well_known in
    if some_of (λ u. is_day_row s u && text_eq u.reporter reporter) us || known
    then (reporter, us)
    else if leb max_distinct (length (keep (is_unknown s unproven well_known) us))
    then overflow s well_known reporter unproven us
    else (reporter, us)

abbrev pub has_allowance : Slot → ℕ → Allowance → Usage → Bool
has_allowance s bytes a u =
    text_eq u.workspace s.workspace
    && (ltb u.reports a.max_reports && leb (u.bytes + bytes) a.max_bytes)

abbrev pub new_usage : Slot → Text → ℕ → Usage
new_usage s reporter bytes = record {
  domain = s.domain;
  workspace = s.workspace;
  day = s.day;
  reporter = reporter;
  reports = 1;
  bytes = bytes;
}

abbrev pub add_usage : ℕ → Usage → Usage
add_usage b u = record u { reports = suc u.reports; bytes = u.bytes + b }

-- One statement; whether it has changed the table. A new row is not held against the allowance.
abbrev pub count_at : Slot → Text → ℕ → Allowance → Option Usage → List Usage → Bool × List Usage
count_at s reporter b a none us = (true, us ++ new_usage s reporter b ∷ [])
count_at s reporter b a (some u) us =
    if has_allowance s b a u
    then (true, change (is_row s reporter) (add_usage b) us)
    else (false, us)

unfoldable pub count_usage : Slot → Text → ℕ → Allowance → List Usage → Bool × List Usage
count_usage s reporter b a us = count_at s reporter b a (find (is_row s reporter) us) us

unfoldable pub give_back : Slot → Text → ℕ → List Usage → List Usage
give_back s reporter b us =
    change (λ u. is_day_row s u && text_eq u.reporter reporter)
      (λ u. record u { reports = u.reports - 1; bytes = u.bytes - b }) us

abbrev pub after_total : Slot → Text → ℕ → Bool × List Usage → Bool × List Usage
after_total s reporter b (true, us) = (true, us)
after_total s reporter b (false, us) = (false, give_back s reporter b us)

-- The total of the day counts for proven reporters that are not well known.
abbrev pub with_total : Slot → Text → ℕ → Bool → Option Allowance → List Usage → Bool × List Usage
with_total s reporter b exempt none us = (true, us)
with_total s reporter b true (some a) us = (true, us)
with_total s reporter b false (some a) us =
    after_total s reporter b (count_usage s total_row b a us)

abbrev pub after_count :
    Slot → Text → ℕ → Bool → Option Allowance → Bool × List Usage → Bool × List Usage
after_count s reporter b exempt totals (true, us) = with_total s reporter b exempt totals us
after_count s reporter b exempt totals (false, us) = (false, us)

abbrev pub is_exempt : List Text → Text → Bool
is_exempt well_known reporter = is_unproven reporter || some_of (text_eq reporter) well_known

unfoldable pub try_consume :
    Slot → Text → ℕ → Allowance → ℕ → List Text → Option Allowance → List Usage → Bool × List Usage
try_consume s reporter b a max_distinct well_known totals us =
    if ltb a.max_reports 1 || ltb a.max_bytes b
    then (false, us)
    else let (reporter', us') = make_room s well_known max_distinct reporter us in
      after_count s reporter' b (is_exempt well_known reporter) totals
        (count_usage s reporter' b a us')

pub record IntakeLimits : Type 0 where
  pub reports_per_day : ℕ
  pub bytes_per_day : ℕ
  pub reporters_per_day : ℕ
  pub unauth_reports_per_day : ℕ
  pub unauth_bytes_per_day : ℕ
  pub unauth_senders_per_day : ℕ
  pub total_reports_per_day : ℕ
  pub total_bytes_per_day : ℕ

-- What a message weighs, who has proven to have sent it, and the domain that its envelope claims.
pub record Parcel : Type 0 where
  pub size : ℕ
  pub reporter : Option Text
  pub claimed : Text

-- The charge of a message; the list is that of the well known reporters.
unfoldable pub charge :
    IntakeLimits → List Text → Slot → Text → ℕ → Option Text → List Usage → Bool × List Usage
charge l well_known s claimed size none us =
    try_consume s (codes "~" ++ claimed) size
      (record { max_reports = l.unauth_reports_per_day; max_bytes = l.unauth_bytes_per_day })
      l.unauth_senders_per_day [] none us
charge l well_known s claimed size (some reporter) us =
    try_consume s reporter size
      (record { max_reports = l.reports_per_day; max_bytes = l.bytes_per_day }) l.reporters_per_day
      well_known
      (some (record { max_reports = l.total_reports_per_day; max_bytes = l.total_bytes_per_day }))
      us
