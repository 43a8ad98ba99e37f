-- ===== src/Intake/Tests.antt =====
-- src/hosted/intake.ts on a report, a free check, and a reporter that is not well known.
use inbox_angel_worker.Common.{◌≤◌, ◌≡◌, refl, arith, true, false, List, [], ◌∷◌, ◌++◌, none, some}
use inbox_angel_worker.Text.{Text, codes, text_eq, to_lower, starts_with, cut, cut_last}
use inbox_angel_worker.RateLimit.{hit}
use inbox_angel_worker.Intake.{
  Slot, IntakeLimits, Parcel, charge, try_consume, count_usage, make_room, give_back, total_row,
}
use inbox_angel_worker.Intake.Address.{rua, parse_recipient, is_token_shaped, intake_address}
use inbox_angel_worker.Intake.Mail.{
  Config, Message, Clock, Post, checked, rejected, spent_check, handle_hosted_email,
  handle_canary_email, route, check_limits, resolve_token, consume_canary,
}
use inbox_angel_worker.Intake.Quota.{accepted, accepted-le}
use inbox_angel_worker.Intake.Routes.{checks, checks-le}

abbrev limits : IntakeLimits
limits = record {
  reports_per_day = 50;
  bytes_per_day = 1000;
  reporters_per_day = 1;
  unauth_reports_per_day = 5;
  unauth_bytes_per_day = 1000;
  unauth_senders_per_day = 2;
  total_reports_per_day = 2;
  total_bytes_per_day = 1000;
}

abbrev slot : Slot
slot = record { workspace = codes "a"; domain = 1; day = codes "d" }

abbrev from : Text → Parcel
from reporter = record { size = 10; reporter = some reporter; claimed = [] }

abbrev parcels : List Parcel
parcels =
    from (codes "r1")
    ∷ from (codes "r2")
    ∷ from (codes "google.com")
    ∷ record { size = 10; reporter = none; claimed = codes "r3" }
    ∷ from (codes "r3")
    ∷ []

abbrev tag : Text
tag = codes "abcdefghijklmnopqrstuvwxyz234567"

abbrev hash : Text → Text
hash t = codes "h" ++ t

abbrev cfg : Config
cfg = record {
  is_enabled = true;
  intake_domain = some (codes "rua.t");
  canary_domain = some (codes "can.t");
  limits = limits;
  well_known = codes "google.com" ∷ [];
}

abbrev post : Post
post = record {
  tokens = record { domain = 1; workspace = codes "a"; hash = hash tag; previous = none } ∷ [];
  domains = record { id = 1; name = codes "x.t"; is_evicted = false } ∷ [];
  usage = [];
  canaries = record { hash = hash tag; expires_at = 100; used_at = none } ∷ [];
  windows = λ _. none;
}

abbrev clock : Clock
clock = record { seconds = 50; millis = 50000; day = codes "d" }

abbrev report : Message
report = record {
  to = intake_address rua tag (codes "Rua.t");
  raw_size = 10;
  reporter = none;
  claimed = codes "r1";
  proven_domain = none;
}

abbrev check : Message
check = record report { to = codes "check+" ++ tag ++ codes "@can.t" }

runs : Unit {0}
unfolding handle_hosted_email route handle_canary_email check_limits resolve_token consume_canary
    charge try_consume count_usage make_room give_back is_token_shaped parse_recipient cut_last cut
    text_eq to_lower starts_with hit
runs = tt

-- The third unknown reporter of the day is refused.
two_accepted : accepted slot limits cfg.well_known parcels [] ≡ 2
unfolding runs
two_accepted = refl

check_checked : (handle_hosted_email hash cfg check clock post).0 ≡ checked tag
unfolding runs
check_checked = refl

check_spent :
    (handle_hosted_email hash cfg check clock (handle_hosted_email hash cfg check clock post).1).0
    ≡ rejected spent_check
unfolding runs
check_spent = refl

named :
    (r r' : Text) → text_eq r total_row ≡ false → some r ≡ some r' → text_eq r' total_row ≡ false
named r r' ne e = cc

accepted-le_example : accepted slot limits cfg.well_known parcels [] ≤ 2
unfolding text_eq
accepted-le_example = accepted-le slot limits cfg.well_known parcels [] refl (
  (λ r e. named (codes "r1") r refl e),
  (
    (λ r e. named (codes "r2") r refl e),
    (
      (λ r e. named (codes "google.com") r refl e),
      ((λ r e. absurd (cc e)), ((λ r e. named (codes "r3") r refl e), tt)),
    ),
  ),
)

checks-le_example : checks hash tag cfg ((check, clock) ∷ (check, clock) ∷ []) post ≤ 1
unfolding text_eq
checks-le_example = checks-le hash tag cfg ((check, clock) ∷ (check, clock) ∷ []) post (omega arith)
