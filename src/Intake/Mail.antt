-- ===== src/Intake/Mail.antt =====
-- src/hosted/intake.ts and src/hosted/canary.ts: mail to the hosted service. What the headers of a message
-- prove, and the hash of a token, come from outside; the parsing of a report and the free check follow the
-- outcome and are left out.
use inbox_angel_worker.Common.{
  ℕ, ◌+◌, ◌*◌, Bool, true, false, not, ◌&&◌, ◌||◌, List, [], ◌∷◌, ◌++◌, Option, none, some, ltb,
  ◌==◌, if◌then◌else◌, some_of, find, change,
}
use inbox_angel_worker.Text.{Text, codes, text_eq}
use inbox_angel_worker.RateLimit.{Windows, hit}
use inbox_angel_worker.Intake.{Usage, Slot, IntakeLimits, charge}
use inbox_angel_worker.Intake.Address.{
  ParsedRecipient, ReportKind, rua, tls_rpt, parse_recipient, is_token_shaped,
}

-- A row of `intake_tokens`; the previous hash with the end of its grace.
pub record IntakeToken : Type 0 where
  pub domain : ℕ
  pub workspace : Text
  pub hash : Text
  pub previous : Option (Text × ℕ)

-- Of a row of `domains`.
pub record Monitored : Type 0 where
  pub id : ℕ
  pub name : Text
  pub is_evicted : Bool

pub record CanaryToken : Type 0 where
  pub hash : Text
  pub expires_at : ℕ
  pub used_at : Option ℕ

pub record Post : Type 0 where
  pub tokens : List IntakeToken
  pub domains : List Monitored
  pub usage : List Usage
  pub canaries : List CanaryToken
  pub windows : Windows

abbrev pub rotation_grace : ℕ
rotation_grace = 72 * 3600

abbrev pub rotate : Text → ℕ → IntakeToken → IntakeToken
rotate hash now t = record t { previous = some (t.hash, now + rotation_grace); hash = hash }

-- None where the hash is another domain's. A row of another workspace stays as it is.
unfoldable pub set_token : Text → ℕ → Text → ℕ → Post → Option Post
set_token ws domain hash now p =
    if some_of (λ t. text_eq t.hash hash && not (t.domain == domain)) p.tokens
    then none
    else if some_of (λ t. t.domain == domain) p.tokens
    then some (record p {
      tokens =
          change (λ t. t.domain == domain && text_eq t.workspace ws) (rotate hash now) p.tokens;
    })
    else some (record p {
      tokens =
          p.tokens ++ record { domain = domain; workspace = ws; hash = hash; previous = none } ∷ [];
    })

pub record Target : Type 0 where
  pub workspace : Text
  pub domain : ℕ

abbrev pub is_previous : Text → ℕ → Option (Text × ℕ) → Bool
is_previous hash now none = false
is_previous hash now (some (h, ends)) = text_eq h hash && ltb now ends

abbrev pub is_current : List Monitored → Text → ℕ → IntakeToken → Bool
is_current domains hash now t =
    some_of (λ d. d.id == t.domain && not d.is_evicted) domains
    && (text_eq t.hash hash || is_previous hash now t.previous)

unfoldable pub resolve_token : Text → ℕ → Post → Option IntakeToken
resolve_token hash now p = find (is_current p.domains hash now) p.tokens

abbrev pub is_open : Text → ℕ → CanaryToken → Bool
is_open hash now t =
    text_eq t.hash hash && (elim t.used_at [ none ↦ true | some _ ↦ false ] && ltb now t.expires_at)

unfoldable pub consume_canary : Text → ℕ → List CanaryToken → Bool × List CanaryToken
consume_canary hash now ts = (
  some_of (is_open hash now) ts,
  change (is_open hash now) (λ t. record t { used_at = some now }) ts,
)

-- None where the hash is not new.
unfoldable pub issue_canary : Text → ℕ → List CanaryToken → Option (List CanaryToken)
issue_canary hash now ts =
    if some_of (λ t. text_eq t.hash hash) ts
    then none
    else some (ts ++ record { hash = hash; expires_at = now + 3600; used_at = none } ∷ [])

pub record Config : Type 0 where
  pub is_enabled : Bool
  pub intake_domain : Option Text
  pub canary_domain : Option Text
  pub limits : IntakeLimits
  pub well_known : List Text

pub record Message : Type 0 where
  pub to : Text
  pub raw_size : ℕ
  pub reporter : Option Text
  pub claimed : Text
  pub proven_domain : Option Text

-- The time in seconds and in milliseconds, and the day of it.
pub record Clock : Type 0 where
  pub seconds : ℕ
  pub millis : ℕ
  pub day : Text

pub data Rejection : Type 0 where
  unknown_recipient too_large unknown_token daily_limit spent_check busy too_many : Rejection

pub data Outcome : Type 0 where
  -- The delivery fails, and is tried again.
  misconfigured : Outcome
  rejected : Rejection → Outcome
  checked : Text → Outcome
  delivered : ReportKind → Target → Outcome

abbrev pub max_report_bytes : ℕ
max_report_bytes = 25 * 1024 * 1024

abbrev pub max_canary_bytes : ℕ
max_canary_bytes = 5 * 1024 * 1024

abbrev pub canary_window : ℕ
canary_window = 3600000

abbrev pub canary_bucket : Option Text → Text
canary_bucket none = codes "canary:unauthenticated"
canary_bucket (some d) = codes "canary:" ++ d

abbrev pub canary_limit : Option Text → ℕ
canary_limit none = 20
canary_limit (some _) = 5

-- The counters, once a token is used.
unfoldable pub check_limits : Message → Clock → Text → Post → Outcome × Post
check_limits m now tag p =
    let (all, windows) = hit (codes "canary:global") now.millis canary_window p.windows in
    if ltb 500 all.count
    then (rejected busy, record p { windows = windows })
    else let (one, windows') =
        hit (canary_bucket m.proven_domain) now.millis canary_window windows in
      if ltb (canary_limit m.proven_domain) one.count
      then (rejected too_many, record p { windows = windows' })
      else (checked tag, record p { windows = windows' })

abbrev pub after_consume : Message → Clock → Text → Post → Bool × List CanaryToken → Outcome × Post
after_consume m now tag p (false, ts) = (rejected spent_check, record p { canaries = ts })
after_consume m now tag p (true, ts) = check_limits m now tag (record p { canaries = ts })

abbrev pub shaped_tag : Option Text → Option Text
shaped_tag none = none
shaped_tag (some tag) = if is_token_shaped tag then some tag else none

abbrev pub check_tag : (Text → Text) → Message → Clock → Option Text → Post → Outcome × Post
check_tag hash m now none p = (rejected unknown_recipient, p)
check_tag hash m now (some tag) p =
    if ltb max_canary_bytes m.raw_size
    then (rejected too_large, p)
    else after_consume m now tag p (consume_canary (hash tag) now.seconds p.canaries)

unfoldable pub handle_canary_email :
    (Text → Text) → Message → Clock → ParsedRecipient → Post → Outcome × Post
handle_canary_email hash m now rcpt p =
    if text_eq rcpt.base (codes "check")
    then check_tag hash m now (shaped_tag rcpt.tag) p
    else (rejected unknown_recipient, p)

abbrev pub slot_of : Clock → IntakeToken → Slot
slot_of now t = record { workspace = t.workspace; domain = t.domain; day = now.day }

abbrev pub after_charge : ReportKind → IntakeToken → Post → Bool × List Usage → Outcome × Post
after_charge kind t p (false, us) = (rejected daily_limit, record p { usage = us })
after_charge kind t p (true, us) = (
  delivered kind (record { workspace = t.workspace; domain = t.domain }),
  record p { usage = us },
)

abbrev pub with_token :
    Config → Message → Clock → ReportKind → Option IntakeToken → Post → Outcome × Post
with_token cfg m now kind none p = (rejected unknown_token, p)
with_token cfg m now kind (some t) p =
    after_charge kind t p
      (charge cfg.limits cfg.well_known (slot_of now t) m.claimed m.raw_size m.reporter p.usage)

abbrev pub with_tag :
    (Text → Text) → Config → Message → Clock → ReportKind → Option Text → Post → Outcome × Post
with_tag hash cfg m now kind none p = (rejected unknown_token, p)
with_tag hash cfg m now kind (some tag) p =
    with_token cfg m now kind (resolve_token (hash tag) now.seconds p) p

abbrev pub kind_of : Text → Option ReportKind
kind_of base =
    if text_eq base (codes "rua")
    then some rua
    else if text_eq base (codes "tls-rpt")
    then some tls_rpt
    else none

abbrev pub with_kind :
    (Text → Text)
    → Config
    → Message
    → Clock
    → Option ReportKind
    → Option Text
    → Post
    → Outcome × Post
with_kind hash cfg m now none tag p = (rejected unknown_recipient, p)
with_kind hash cfg m now (some kind) tag p =
    if ltb max_report_bytes m.raw_size
    then (rejected too_large, p)
    else with_tag hash cfg m now kind (shaped_tag tag) p

unfoldable pub route :
    (Text → Text)
    → Config
    → Text
    → Text
    → Message
    → Clock
    → Option ParsedRecipient
    → Post
    → Outcome × Post
route hash cfg intake canary m now none p = (rejected unknown_recipient, p)
route hash cfg intake canary m now (some rcpt) p =
    if text_eq rcpt.host canary
    then handle_canary_email hash m now rcpt p
    else if text_eq rcpt.host intake
    then with_kind hash cfg m now (kind_of rcpt.base) rcpt.tag p
    else (rejected unknown_recipient, p)

abbrev pub with_domains :
    (Text → Text)
    → Config
    → Bool
    → Option Text
    → Option Text
    → Message
    → Clock
    → Post
    → Outcome × Post
with_domains hash cfg true (some intake) (some canary) m now p =
    route hash cfg intake canary m now (parse_recipient m.to) p
with_domains hash cfg _ _ _ m now p = (misconfigured, p)

unfoldable pub handle_hosted_email :
    (Text → Text) → Config → Message → Clock → Post → Outcome × Post
handle_hosted_email hash cfg m now p =
    with_domains hash cfg cfg.is_enabled cfg.intake_domain cfg.canary_domain m now p
