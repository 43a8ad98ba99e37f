-- ===== src/Ownership.antt =====
-- src/domains/ownership.ts over the tables of Domains. The resolver, the new token and what Cloudflare
-- says of a zone come from outside. Cleaning up DNS records, emails and the audit log are effects
-- outside the tables and are left out.
pub mod Proof
pub mod Claims
pub mod Evict
pub mod Insert
mod Tests
use mathlib.Core.Option
use inbox_angel_worker.Common.{
  change, ℕ, zero, suc, ◌+◌, Bool, true, false, not, ◌&&◌, ◌||◌, List, [], ◌∷◌, ◌++◌, map, Option,
  none, some, leb, ◌==◌, if◌then◌else◌, some_of, keep, find, length,
}
use inbox_angel_worker.Text.{Text, codes, text_eq, to_lower, split_on, join, ends_with}
use inbox_angel_worker.Dmarc.{TxtAnswer, ok, failed}
use inbox_angel_worker.DnsWrite.{Mode, selfhost, saas, bare}
use inbox_angel_worker.Domains.{
  VerifiedVia, Domain, ClaimStatus, Reason, Claim, Zone, Connection, LiveZone, Store, is_none,
  is_some, is_legacy, is_mine, get_by_name, get_by_id, subdomains, is_proven_other, owned_by_other,
  is_legacy_holder, find_legacy_holder, evicted_row, detach, detach_all, is_my_claim, get_claim,
  count_claims, new_claim, upsert_claim, delete_claim, mark_claim_lost, record_check, parent_of,
  new_domain, insert_domain, via_selfhost, via_cloudflare, via_txt, via_parent, via_existing,
  legacy, pending, lost, dns_failed, not_found,
}

-- `getZone` through a connection: none for an exception.
abbrev pub Cloudflare : Type 0
Cloudflare = Text → Text → Option LiveZone

abbrev pub max_pending_claims : ℕ
max_pending_claims = 25

abbrev pub claim_txt_name : Text → Text
claim_txt_name domain = codes "_inboxangel." ++ domain

abbrev pub claim_txt_value : Text → Text
claim_txt_value token = codes "inboxangel-verify=" ++ token

unfoldable pub within : Text → Text → Bool
within domain zone = text_eq domain zone || ends_with (b'.' ∷ zone) domain

-- The domain without its first label, and so on, while two labels are left.
abbrev pub parent_names : List Text → List Text
parent_names [] = []
parent_names (a ∷ []) = []
parent_names (a ∷ b ∷ []) = []
parent_names (a ∷ b ∷ c ∷ ls) = join (codes ".") (b ∷ c ∷ ls) ∷ parent_names (b ∷ c ∷ ls)

abbrev pub is_proving_parent : Text → Store → Text → Bool
is_proving_parent ws s name = elim (get_by_name ws name s) [
  | none ↦ false
  | some d ↦ not (is_legacy d.via)
]

unfoldable pub proven_by_parent : Text → Text → Store → Bool
proven_by_parent ws domain s =
    some_of (is_proving_parent ws s) (parent_names (split_on b'.' domain))

abbrev pub zone_covers : Text → Zone → Bool
zone_covers domain z = within domain (to_lower z.zone_name)

abbrev pub is_live : Option LiveZone → Zone → Bool
is_live none z = false
is_live (some l) z =
    l.is_active
    && elim l.name [ none ↦ false | some n ↦ text_eq (to_lower n) (to_lower z.zone_name) ]

-- One connection proves the domain.
abbrev pub connection_proves : Cloudflare → Text → Text → Connection → Bool
connection_proves cf ws domain c =
    text_eq c.workspace ws
    && (c.is_active
        && (not (some_of (λ b. within domain (to_lower b)) c.blocked)
            && some_of (λ z. zone_covers domain z && is_live (cf c.id z.zone_id) z) c.zones))

unfoldable pub proven_by_cloudflare : Cloudflare → Text → Text → Store → Bool
proven_by_cloudflare cf ws domain s = some_of (connection_proves cf ws domain) s.connections

unfoldable pub proven_by_txt : (Text → TxtAnswer) → Text → Text → Option Reason
proven_by_txt txt domain token = elim (txt (claim_txt_name domain)) [
  | failed e ↦ some (dns_failed e)
  | ok records ↦
      if some_of (λ r. text_eq (bare r) (claim_txt_value token)) records
      then none
      else some (not_found (claim_txt_name domain) (claim_txt_value token))
]

-- `walk`: a row after the rows below it, on fuel. The order among the rows of one parent, by name in
-- the code, has no effect on what is detached.
abbrev pub walk_each : (Domain → List ℕ) → List Domain → List ℕ
walk_each visit [] = []
walk_each visit (d ∷ ds) = visit d ++ walk_each visit ds

unfoldable pub walk : ℕ → Text → Store → Domain → List ℕ
walk zero ws s d = d.id ∷ []
walk (suc fuel) ws s d =
    walk_each (λ child. walk fuel ws s child) (subdomains ws d.id s) ++ d.id ∷ []

-- The rows that go with the holder, deepest first; the holder alone where its row is not found.
abbrev pub tree_from : Text → ℕ → Store → Option Domain → List ℕ
tree_from ws id s none = id ∷ []
tree_from ws id s (some root) = walk s.next_domain ws s root

unfoldable pub evicted_tree : Text → ℕ → Store → List ℕ
evicted_tree ws id s = tree_from ws id s (get_by_id ws id s)

unfoldable pub evict_legacy_holder : (ℕ → Text) → ℕ → Text → Text → Store → Store
evict_legacy_holder print now ws domain s = elim (find_legacy_holder domain ws s) [
  | none ↦ s
  | some h ↦ detach_all print now (evicted_tree h.workspace h.id s) s
]

pub data Admission : Type 0 where
  verified : VerifiedVia → Admission
  is_pending : Claim → Admission
  taken limit : Admission

abbrev pub pend : Claim × Store → Admission × Store
pend (c, s) = (is_pending c, s)

-- The claim that is made where there is none.
unfoldable pub admit_new : Text → Text → Text → Store → Admission × Store
admit_new ws domain token s =
    if leb max_pending_claims (count_claims ws s)
    then (limit, s)
    else pend (upsert_claim ws domain token s)

-- A claim that was lost starts again: the other workspace may have let go.
abbrev pub admit_standing : Text → Text → Text → Claim → ClaimStatus → Store → Admission × Store
admit_standing ws domain token c pending s = (is_pending c, s)
admit_standing ws domain token c lost s = admit_new ws domain token (delete_claim ws c.id s)

abbrev pub admit_claimed : Text → Text → Text → Option Claim → Store → Admission × Store
admit_claimed ws domain token none s = admit_new ws domain token s
admit_claimed ws domain token (some c) s = admit_standing ws domain token c c.status s

-- What an operation takes from outside: the time, how a number is printed, a new token, Cloudflare.
pub record World : Type 0 where
  pub now : ℕ
  pub print : ℕ → Text
  pub token : Text
  pub cloudflare : Cloudflare
  pub txt : Text → TxtAnswer

unfoldable pub admit_domain : World → Mode → Text → Text → Store → Admission × Store
admit_domain w selfhost ws domain s = (verified via_selfhost, s)
admit_domain w saas ws domain s =
    if is_some (get_by_name ws domain s)
    then (verified via_existing, s)
    else if owned_by_other domain ws s
    then (taken, s)
    else if proven_by_parent ws domain s
    then (verified via_parent, evict_legacy_holder w.print w.now ws domain s)
    else if proven_by_cloudflare w.cloudflare ws domain s
    then (verified via_cloudflare, evict_legacy_holder w.print w.now ws domain s)
    else admit_claimed ws domain w.token (get_claim ws domain s) s

pub data VerifyOutcome : Type 0 where
  is_verified : VerifiedVia → VerifyOutcome
  is_taken : VerifyOutcome
  unproven : Reason → VerifyOutcome

abbrev pub judge_txt : World → Text → Claim → Option Reason → Store → VerifyOutcome × Store
judge_txt w ws c none s = (
  is_verified via_txt,
  evict_legacy_holder w.print w.now ws c.domain (record_check ws w.now c.id none s),
)
judge_txt w ws c (some reason) s = (unproven reason, record_check ws w.now c.id (some reason) s)

unfoldable pub verify_claim : World → Text → Claim → Store → VerifyOutcome × Store
verify_claim w ws c s =
    if owned_by_other c.domain ws s
    then (is_taken, mark_claim_lost ws c.id s)
    else if proven_by_parent ws c.domain s
    then (is_verified via_parent, evict_legacy_holder w.print w.now ws c.domain s)
    else if proven_by_cloudflare w.cloudflare ws c.domain s
    then (is_verified via_cloudflare, evict_legacy_holder w.print w.now ws c.domain s)
    else judge_txt w ws c (proven_by_txt w.txt c.domain c.token) s

unfoldable pub settle_claims : Text → Text → Store → Store
settle_claims ws domain s =
    let mine = keep (λ c. not (is_my_claim ws c && text_eq c.domain domain)) s.claims in
    record s {
      claims =
          change (λ c. text_eq c.domain domain && not (is_my_claim ws c))
            (λ c. record c { status = lost }) mine;
    }
