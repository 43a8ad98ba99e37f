-- ===== src/Monitor.antt =====
-- src/monitor/check.ts: the daily check of a domain against its stored baseline. A lookup that the
-- promise rejects is `failed` with its message; a percentage that a change shows is `percent`.
pub mod Settles
mod Tests
use inbox_angel_worker.Common.{
  ℕ, ◌-◌, ◌≡◌, Bool, true, false, not, ◌&&◌, ◌||◌, List, [], ◌∷◌, ◌++◌, Option, none, some, ltb,
  leb, ◌==◌, if◌then◌else◌,
}
use inbox_angel_worker.Text.{Text, codes, text_eq, is_empty, includes}
use mathlib.Core.Option
use mathlib.Core.Option.{get_or}

pub data Severity : Type 0 where
  improved degraded changed : Severity

pub data Shown : Type 0 where
  text : Text → Shown
  percent : ℕ → Shown

pub data Field : Type 0 where
  spf_field policy_field pct_field : Field

pub record DomainChange : Type 0 where
  pub field : Field
  pub was : Shown
  pub now : Shown
  pub severity : Severity

-- The part of a subscription that the check stores.
pub record Baseline : Type 0 where
  pub spf_record : Option Text
  pub dmarc_policy : Option Text
  pub dmarc_pct : Option ℕ
  pub dmarc_record : Option Text

pub record SpfFound : Type 0 where
  pub raw : Text
  pub permerror : Option Text

pub record DmarcFound : Type 0 where
  pub raw : Text
  pub policy : Text
  pub pct : ℕ

-- A settled promise of a lookup.
pub data Settled (A : Type 0) : Type 0 where
  fulfilled : Option A → Settled A
  rejected : Text → Settled A

unfoldable pub strength : Text → ℕ
unfolding text_eq
strength p =
    if text_eq p (codes "reject")
    then 3
    else if text_eq p (codes "quarantine")
    then 2
    else if text_eq p (codes "none")
    then 1
    else 0

unfoldable pub dmarc_severity : Text → Text → Severity
dmarc_severity was now =
    if ltb (strength was) (strength now)
    then improved
    else if ltb (strength now) (strength was)
    then degraded
    else changed

-- `if (permerror)`: an empty text is false.
abbrev pub is_set : Option Text → Bool
is_set none = false
is_set (some t) = not (is_empty t)

abbrev pub is_strict : Text → Bool
is_strict record' = includes (codes "-all") record'

unfoldable pub spf_severity : Text → Text → Option Text → Severity
unfolding includes
spf_severity was now permerror =
    if is_set permerror
    then degraded
    else if is_empty now && not (is_empty was)
    then degraded
    else if not (is_empty now) && is_empty was
    then improved
    else if is_strict now && not (is_strict was)
    then improved
    else if not (is_strict now) && is_strict was
    then degraded
    else changed

abbrev pub rollback_threshold_pp : ℕ
rollback_threshold_pp = 10

-- `prevPassRate - currentPassRate >= ROLLBACK_THRESHOLD_PP`, for rates in points.
unfoldable pub detect_rollback_risk : Option ℕ → Option ℕ → Bool
detect_rollback_risk none prev = false
detect_rollback_risk (some current) none = false
detect_rollback_risk (some current) (some prev) = leb rollback_threshold_pp (prev - current)

pub record Errors : Type 0 where
  pub spf : Option Text
  pub dmarc : Option Text

abbrev pub error_of : {A : Type 0} → Settled A → Option Text
error_of (fulfilled _) = none
error_of (rejected message) = some message

abbrev pub value_of : {A : Type 0} → Settled A → Option A
value_of (fulfilled v) = v
value_of (rejected _) = none

-- `errors.x ? stored : found`.
abbrev pub or_stored {ℓ} : {A : Type ℓ} → Option Text → Option A → Option A → Option A
or_stored error stored found = if is_set error then stored else found

unfoldable pub new_baseline : Baseline → Settled SpfFound → Settled DmarcFound → Baseline
new_baseline sub spf dmarc = record {
  spf_record =
      or_stored (error_of spf) sub.spf_record (Option.map (λ (r : SpfFound). r.raw) (value_of spf));
  dmarc_policy =
      or_stored (error_of dmarc) sub.dmarc_policy
        (Option.map (λ (r : DmarcFound). r.policy) (value_of dmarc));
  dmarc_pct =
      or_stored (error_of dmarc) sub.dmarc_pct
        (Option.map (λ (r : DmarcFound). r.pct) (value_of dmarc));
  dmarc_record =
      or_stored (error_of dmarc) sub.dmarc_record
        (Option.map (λ (r : DmarcFound). r.raw) (value_of dmarc));
}

-- `s ?? ''`.
abbrev pub or_blank : Option Text → Text
or_blank o = get_or o []

-- `s || other`.
abbrev pub or_else_text : Text → Text → Text
or_else_text s other = if is_empty s then other else s

abbrev pub permerror_of : Option SpfFound → Option Text
permerror_of none = none
permerror_of (some r) = r.permerror

unfoldable pub spf_change : Text → Text → Option Text → List DomainChange
spf_change was now permerror =
    if text_eq was now
    then []
    else record {
      field = spf_field;
      was = text was;
      now = text now;
      severity = spf_severity was now permerror;
    }
      ∷ []

unfoldable pub policy_change : Text → Text → List DomainChange
policy_change was now =
    if text_eq was now
    then []
    else record {
      field = policy_field;
      was = text (or_else_text was (codes "(none)"));
      now = text (or_else_text now (codes "(missing)"));
      severity = dmarc_severity was now;
    }
      ∷ []

unfoldable pub pct_change : ℕ → ℕ → Text → List DomainChange
pct_change was now policy =
    if not (was == now) && (not (is_empty policy) && not (text_eq policy (codes "none")))
    then record {
      field = pct_field;
      was = percent was;
      now = percent now;
      severity = if ltb was now then improved else degraded;
    }
      ∷ []
    else []

unfoldable pub changes_between : Baseline → Baseline → Option Text → List DomainChange
changes_between sub base permerror =
    spf_change (or_blank sub.spf_record) (or_blank base.spf_record) permerror
    ++ (policy_change (or_blank sub.dmarc_policy) (or_blank base.dmarc_policy)
        ++ pct_change (get_or sub.dmarc_pct 100) (get_or base.dmarc_pct 100)
            (or_blank base.dmarc_policy))

pub record CheckMonitorResult : Type 0 where
  pub changes : List DomainChange
  pub baseline : Baseline
  pub errors : Errors

unfoldable pub check_subscription :
    Baseline → Settled SpfFound → Settled DmarcFound → CheckMonitorResult
check_subscription sub spf dmarc =
    let base = new_baseline sub spf dmarc in
    record {
      changes = changes_between sub base (permerror_of (value_of spf));
      baseline = base;
      errors = record { spf = error_of spf; dmarc = error_of dmarc };
    }
