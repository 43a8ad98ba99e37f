-- ===== src/Domains.antt =====
-- The tables behind src/domains/ownership.ts, and the queries of packages/db/src/queries/domains.ts and
-- claims.ts that it makes. A table is the list of its rows in the order of their ids.
use mathlib.Core.Option
use inbox_angel_worker.Common.{
  change, ℕ, suc, Bool, true, false, not, ◌&&◌, List, [], ◌∷◌, ◌++◌, Option, none, some, ◌==◌,
  if◌then◌else◌, some_of, keep, find, length,
}
use inbox_angel_worker.Text.{Text, codes, text_eq, split_on, join}

pub data VerifiedVia : Type 0 where
  via_selfhost via_cloudflare via_txt via_parent via_existing legacy : VerifiedVia

-- A row of `domains`.
pub record Domain : Type 0 where
  pub id : ℕ
  pub workspace : Text
  pub name : Text
  pub via : VerifiedVia
  pub parent : Option ℕ
  pub evicted_at : Option ℕ
  pub evicted_name : Option Text
  pub is_default : Bool
  pub alerts_enabled : Bool
  pub connection : Option Text
  pub dns_record : Option Text

pub data ClaimStatus : Type 0 where
  pending lost : ClaimStatus

-- Why a token was not found: the lookup failed, or no record of the name has the value.
pub data Reason : Type 0 where
  dns_failed : Option Text → Reason
  not_found : Text → Text → Reason

-- A row of `domain_claims`.
pub record Claim : Type 0 where
  pub id : ℕ
  pub workspace : Text
  pub domain : Text
  pub token : Text
  pub status : ClaimStatus
  pub last_checked_at : Option ℕ
  pub last_error : Option Reason

pub record Zone : Type 0 where
  pub zone_id : Text
  pub zone_name : Text

-- A Cloudflare connection with the zones that it allows and the names of those that it blocks.
pub record Connection : Type 0 where
  pub id : Text
  pub workspace : Text
  pub is_active : Bool
  pub zones : List Zone
  pub blocked : List Text

-- What Cloudflare says of a zone: its status and its name.
pub record LiveZone : Type 0 where
  pub is_active : Bool
  pub name : Option Text

pub record Store : Type 0 where
  pub domains : List Domain
  pub next_domain : ℕ
  pub claims : List Claim
  pub next_claim : ℕ
  pub connections : List Connection
  -- The domains of the intake tokens.
  pub intake : List ℕ

abbrev pub is_none {ℓ} : {A : Type ℓ} → Option A → Bool
is_none none = true
is_none (some _) = false

abbrev pub is_some {ℓ} : {A : Type ℓ} → Option A → Bool
is_some o = not (is_none o)

abbrev pub is_legacy : VerifiedVia → Bool
is_legacy legacy = true
is_legacy _ = false

-- The queries of one workspace skip the rows that were evicted.
abbrev pub is_mine : Text → Domain → Bool
is_mine ws d = text_eq d.workspace ws && is_none d.evicted_at

unfoldable pub get_by_name : Text → Text → Store → Option Domain
get_by_name ws domain s = find (λ d. is_mine ws d && text_eq d.name domain) s.domains

unfoldable pub get_by_id : Text → ℕ → Store → Option Domain
get_by_id ws id s = find (λ d. is_mine ws d && d.id == id) s.domains

unfoldable pub subdomains : Text → ℕ → Store → List Domain
subdomains ws id s =
    keep (λ d. is_mine ws d && elim d.parent [ none ↦ false | some p ↦ p == id ]) s.domains

abbrev pub is_proven_other : Text → Text → Domain → Bool
is_proven_other domain ws d =
    text_eq d.name domain && (not (text_eq d.workspace ws) && not (is_legacy d.via))

unfoldable pub owned_by_other : Text → Text → Store → Bool
owned_by_other domain ws s = some_of (is_proven_other domain ws) s.domains

abbrev pub is_legacy_holder : Text → Text → Domain → Bool
is_legacy_holder domain ws d =
    text_eq d.name domain
    && (not (text_eq d.workspace ws) && (is_legacy d.via && is_none d.evicted_at))

unfoldable pub find_legacy_holder : Text → Text → Store → Option Domain
find_legacy_holder domain ws s = find (is_legacy_holder domain ws) s.domains

-- The name of a detached row, `evicted-<id>.invalid`; the id is printed by a function from outside.
abbrev pub evicted_row : (ℕ → Text) → ℕ → Domain → Domain
evicted_row print now d = record d {
  name = codes "evicted-" ++ print d.id ++ codes ".invalid";
  evicted_at = some now;
  evicted_name = some d.name;
  is_default = false;
  alerts_enabled = false;
  connection = none;
  dns_record = none;
}

unfoldable pub detach : (ℕ → Text) → ℕ → ℕ → Store → Store
detach print now id s = record s {
  domains = change (λ d. d.id == id) (evicted_row print now) s.domains;
  intake = keep (λ t. not (t == id)) s.intake;
}

abbrev pub detach_all : (ℕ → Text) → ℕ → List ℕ → Store → Store
detach_all print now [] s = s
detach_all print now (id ∷ ids) s = detach_all print now ids (detach print now id s)

abbrev pub is_my_claim : Text → Claim → Bool
is_my_claim ws c = text_eq c.workspace ws

unfoldable pub get_claim : Text → Text → Store → Option Claim
get_claim ws domain s = find (λ c. is_my_claim ws c && text_eq c.domain domain) s.claims

unfoldable pub count_claims : Text → Store → ℕ
count_claims ws s = length (keep (is_my_claim ws) s.claims)

abbrev pub new_claim : ℕ → Text → Text → Text → Claim
new_claim id ws domain token = record {
  id = id;
  workspace = ws;
  domain = domain;
  token = token;
  status = pending;
  last_checked_at = none;
  last_error = none;
}

-- `claims.upsert`: the claim that stands keeps its token.
unfoldable pub upsert_claim : Text → Text → Text → Store → Claim × Store
upsert_claim ws domain token s = elim (get_claim ws domain s) [
  | some c ↦ (c, s)
  | none ↦
      let c = new_claim s.next_claim ws domain token in
      (c, record s { claims = s.claims ++ c ∷ []; next_claim = suc s.next_claim })
]

unfoldable pub delete_claim : Text → ℕ → Store → Store
delete_claim ws id s = record s {
  claims = keep (λ c. not (is_my_claim ws c && c.id == id)) s.claims;
}

unfoldable pub mark_claim_lost : Text → ℕ → Store → Store
mark_claim_lost ws id s = record s {
  claims = change (λ c. is_my_claim ws c && c.id == id) (λ c. record c { status = lost }) s.claims;
}

unfoldable pub record_check : Text → ℕ → ℕ → Option Reason → Store → Store
record_check ws now id error s = record s {
  claims =
      change (λ c. is_my_claim ws c && c.id == id)
        (λ c. record c { last_checked_at = some now; last_error = error }) s.claims;
}

-- The parent that `domains.insert` finds.
abbrev pub parent_of : Text → List Text → Store → Option ℕ
parent_of ws (a ∷ b ∷ c ∷ ls) s =
    Option.map (λ (d : Domain). d.id) (get_by_name ws (join (codes ".") (b ∷ c ∷ ls)) s)
parent_of ws _ s = none

abbrev pub new_domain : ℕ → Text → Text → VerifiedVia → Option ℕ → Domain
new_domain id ws domain via parent = record {
  id = id;
  workspace = ws;
  name = domain;
  via = via;
  parent = parent;
  evicted_at = none;
  evicted_name = none;
  is_default = false;
  alerts_enabled = true;
  connection = none;
  dns_record = none;
}

-- None where the name is not unique.
unfoldable pub insert_domain : Text → Text → VerifiedVia → Store → Option Store
insert_domain ws domain via s =
    if some_of (λ d. text_eq d.name domain) s.domains
    then none
    else some (record s {
      domains =
          s.domains
          ++ new_domain s.next_domain ws domain via (parent_of ws (split_on b'.' domain) s) ∷ [];
      next_domain = suc s.next_domain;
    })
