-- ===== src/Bulk.antt =====
-- src/domains/bulk.ts over Ownership: a list of domains is parsed, and each is admitted and inserted.
-- Provisioning DNS comes from outside; a constraint other than that of unique names does not fail.
pub mod Limit
mod Tests
use inbox_angel_worker.Common.{
  ℕ, suc, Bool, true, false, not, ◌&&◌, ◌||◌, List, [], ◌∷◌, ◌++◌, Option, none, some, leb, ◌==◌,
  if◌then◌else◌, some_of, change, length, take,
}
use inbox_angel_worker.Text.{Text, text_eq, to_lower, trim, is_empty, push_first, cut_last}
use inbox_angel_worker.DnsWrite.{Mode}
use inbox_angel_worker.Domains.{
  Store, Claim, Domain, VerifiedVia, get_by_name, insert_domain, is_some,
}
use inbox_angel_worker.Ownership.{
  World, Admission, verified, is_pending, taken, limit, admit_domain, settle_claims,
}

abbrev pub batch_limit : ℕ
batch_limit = 50

abbrev pub is_domain_code : ℕ → Bool
is_domain_code c =
    leb b'a' c && leb c b'z' || (leb b'0' c && leb c b'9' || (c == b'.' || c == b'-'))

abbrev pub all_domain_codes : Text → Bool
all_domain_codes [] = true
all_domain_codes (c ∷ s) = is_domain_code c && all_domain_codes s

abbrev pub all_letters : Text → Bool
all_letters [] = true
all_letters (c ∷ s) = (leb b'a' c && leb c b'z') && all_letters s

-- `DOMAIN_RE`: the last label stands after the last point.
abbrev pub is_domain_split : Option (Text × Text) → Bool
is_domain_split none = false
is_domain_split (some (host, top)) =
    not (is_empty host) && (all_domain_codes host && (leb 2 (length top) && all_letters top))

unfoldable pub validate_domain : Text → Bool
validate_domain domain = is_domain_split (cut_last b'.' domain)

abbrev pub is_separator : ℕ → Bool
is_separator c = c == 10 || c == b','

-- The parts between separators; those between neighbours are empty.
abbrev pub split_list : Text → List Text
split_list [] = [] ∷ []
split_list (c ∷ s) =
    let rest = split_list s in if is_separator c then [] ∷ rest else push_first c rest

abbrev pub add_new : List Text → Text → List Text
add_new seen d = if is_empty d || some_of (text_eq d) seen then seen else seen ++ d ∷ []

abbrev pub add_all : List Text → List Text → List Text
add_all seen [] = seen
add_all seen (raw ∷ raws) = add_all (add_new seen (to_lower (trim raw))) raws

unfoldable pub parse_domain_list : Text → List Text
parse_domain_list input = add_all [] (split_list input)

pub data BulkImportStatus : Type 0 where
  invalid duplicate duplicate_elsewhere too_many : BulkImportStatus
  pending_claim : Claim → BulkImportStatus
  -- The record's id, and whether DNS is to be set by hand.
  imported : Option Text → Bool → BulkImportStatus

-- What provisioning answers: none for an exception.
abbrev pub Provision : Type 0
Provision = Text → Option (Option Text × Bool)

abbrev pub set_dns_record : Text → ℕ → Text → Store → Store
set_dns_record ws id rid s = record s {
  domains =
      change (λ d. text_eq d.workspace ws && d.id == id) (λ d. record d { dns_record = some rid })
        s.domains;
}

abbrev pub provisioned : Text → ℕ → Option (Option Text × Bool) → Store → BulkImportStatus × Store
provisioned ws id none s = (imported none true, s)
provisioned ws id (some (none, manual)) s = (imported none manual, s)
provisioned ws id (some (some rid, manual)) s =
    (imported (some rid) manual, if is_empty rid then s else set_dns_record ws id rid s)

-- After the insert; the id of the new row is that which was next.
abbrev pub inserted : Provision → Text → Text → ℕ → Option Store → Store → BulkImportStatus × Store
inserted provision ws domain id none s = (duplicate, s)
inserted provision ws domain id (some s') s =
    provisioned ws id (provision domain) (settle_claims ws domain s')

abbrev pub admitted : Provision → Text → Text → Admission × Store → BulkImportStatus × Store
admitted provision ws domain (taken, s) = (duplicate_elsewhere, s)
admitted provision ws domain (limit, s) = (too_many, s)
admitted provision ws domain (is_pending c, s) = (pending_claim c, s)
admitted provision ws domain (verified via, s) =
    inserted provision ws domain s.next_domain (insert_domain ws domain via s) s

unfoldable pub insert_one :
    (Text → World) → Provision → Mode → Text → Text → Store → BulkImportStatus × Store
insert_one w provision mode ws domain s =
    if not (validate_domain domain)
    then (invalid, s)
    else if is_some (get_by_name ws domain s)
    then (duplicate, s)
    else admitted provision ws domain (admit_domain (w domain) mode ws domain s)

abbrev pub insert_all :
    (Text → World)
    → Provision
    → Mode
    → Text
    → List Text
    → Store
    → List (Text × BulkImportStatus) × Store
insert_all w provision mode ws [] s = ([], s)
insert_all w provision mode ws (d ∷ ds) s =
    let (status, s') = insert_one w provision mode ws d s in
    let (results, s'') = insert_all w provision mode ws ds s' in ((d, status) ∷ results, s'')

unfoldable pub bulk_insert_domains :
    (Text → World)
    → Provision
    → Mode
    → Text
    → List Text
    → Store
    → List (Text × BulkImportStatus) × Store
bulk_insert_domains w provision mode ws domains s =
    insert_all w provision mode ws (take batch_limit domains) s
