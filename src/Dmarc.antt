-- ===== src/Dmarc.antt =====
-- packages/dns-checks/src/dmarc.ts: parsing, discovery and grade of a DMARC record. The resolver is
-- a function from names to answers; the organizational domain of a name, which the public suffix
-- list decides, is one from names. A regular expression is the function that it decides.
pub mod Discovery
pub mod Parse
mod Tests
use mathlib.Core.Option
use mathlib.Core.Option.{get_or}
use inbox_angel_worker.Common.{
  ℕ, Bool, true, false, not, ◌&&◌, ◌||◌, List, [], ◌∷◌, ◌++◌, map, Option, none, some, ltb, leb,
  ◌==◌, if◌then◌else◌, some_of, keep, length,
}
use inbox_angel_worker.Common.Int.{ℤ, pos}
use inbox_angel_worker.Text.{
  Text, codes, text_eq, to_lower, trim, trim_start, is_empty, split_on, cut, starts_with, is_digit,
  parse_int, ends_with,
}
use inbox_angel_worker.Rollout.{
  RolloutPolicy, p_none, quarantine, reject, policy_named, Tags, get_tag, has_tag, is_p_none,
}

pub data Align : Type 0 where
  relaxed strict : Align

pub data Issue : Type 0 where
  missing_p : Issue
  invalid_p invalid_sp invalid_pct : Text → Issue

pub record DmarcRecord : Type 0 where
  pub raw : Text
  pub policy : RolloutPolicy
  pub subdomain_policy : RolloutPolicy
  pub pct : ℕ
  pub rua : List Text
  pub ruf : List Text
  pub adkim : Align
  pub aspf : Align
  pub valid : Bool
  pub issues : List Issue

-- What follows `v=DMARC1` and white space: nothing, or a semicolon.
abbrev pub ends_version : Text → Bool
ends_version [] = true
ends_version (c ∷ _) = c == b';'

abbrev pub drop_text : Text → Text → Text
drop_text [] s = s
drop_text (_ ∷ p) [] = []
drop_text (_ ∷ p) (_ ∷ s) = drop_text p s

-- `/^\s*v=DMARC1\s*(;|$)/i`.
unfoldable pub is_dmarc_record : Text → Bool
unfolding trim_start to_lower starts_with
is_dmarc_record txt =
    let s = to_lower (trim_start txt) in
    starts_with (codes "v=dmarc1") s && ends_version (trim_start (drop_text (codes "v=dmarc1") s))

-- The lower-case names that every object has, so that `k in tags` holds.
abbrev pub inherited_names : List Text
inherited_names = codes "constructor" ∷ codes "__proto__" ∷ []

unfoldable pub add_tag : Text → Text → Tags → Tags
add_tag k v m =
    if not (is_empty k) && not (has_tag k m || some_of (text_eq k) inherited_names)
    then m ++ (k, v) ∷ []
    else m

unfoldable pub add_part : Text → Tags → Tags
add_part part m = elim (cut b'=' part) [
  | none ↦ m
  | some (k, v) ↦ add_tag (to_lower (trim k)) (trim v) m
]

unfoldable pub add_parts : Tags → List Text → Tags
add_parts m [] = m
add_parts m (part ∷ parts) = add_parts (add_part part m) parts

unfoldable pub parse_tags : Text → Tags
parse_tags raw = add_parts [] (split_on b';' raw)

unfoldable pub read_policy : Option Text → Option RolloutPolicy
unfolding policy_named
read_policy none = none
read_policy (some v) = policy_named (to_lower v)

-- `/^\d+$/`.
abbrev pub all_digits : Text → Bool
all_digits s = not (is_empty s) && not (some_of (λ c. not (is_digit c)) s)

abbrev pub at_most_100 : Option ℤ → Option ℕ
at_most_100 (some (pos n)) = if ltb 100 n then none else some n
at_most_100 _ = none

unfoldable pub read_pct : Text → Option ℕ
read_pct v = if all_digits v then at_most_100 (parse_int v) else none

unfoldable pub text_list : Option Text → List Text
text_list v = keep (λ s. not (is_empty s)) (map trim (split_on b',' (get_or v [])))

unfoldable pub read_align : Option Text → Align
read_align none = relaxed
read_align (some v) = if text_eq (to_lower v) (codes "s") then strict else relaxed

unfoldable pub policy_issues : Option Text → List Issue
policy_issues none = missing_p ∷ []
policy_issues (some v) = elim (read_policy (some v)) [ none ↦ invalid_p v ∷ [] | some _ ↦ [] ]

unfoldable pub sp_issues : Option Text → List Issue
sp_issues none = []
sp_issues (some v) = elim (read_policy (some v)) [ none ↦ invalid_sp v ∷ [] | some _ ↦ [] ]

unfoldable pub pct_issues : Option Text → List Issue
pct_issues none = []
pct_issues (some v) = elim (read_pct v) [ none ↦ invalid_pct v ∷ [] | some _ ↦ [] ]

unfoldable pub pct_value : Option Text → ℕ
pct_value none = 100
pct_value (some v) = get_or (read_pct v) 100

abbrev pub spoils : Issue → Bool
spoils missing_p = true
spoils (invalid_p _) = true
spoils _ = false

unfoldable pub parse_dmarc_record : Text → DmarcRecord
parse_dmarc_record raw =
    let tags = parse_tags raw in
    let p = get_tag (codes "p") tags in
    let sp = get_tag (codes "sp") tags in
    let pct' = get_tag (codes "pct") tags in
    let policy' = get_or (read_policy p) p_none in
    let issues' = policy_issues p ++ (sp_issues sp ++ pct_issues pct') in
    record {
      raw = raw;
      policy = policy';
      subdomain_policy = get_or (read_policy sp) policy';
      pct = pct_value pct';
      rua = text_list (get_tag (codes "rua") tags);
      ruf = text_list (get_tag (codes "ruf") tags);
      adkim = read_align (get_tag (codes "adkim") tags);
      aspf = read_align (get_tag (codes "aspf") tags);
      valid = not (some_of spoils issues');
      issues = issues';
    }

pub data DmarcLookupStatus : Type 0 where
  found absent multiple error : DmarcLookupStatus

pub record DmarcLookup : Type 0 where
  pub status : DmarcLookupStatus
  pub domain : Text
  pub entry : Option DmarcRecord
  pub found_at : Option Text
  pub inherited : Bool
  pub organizational_domain : Option Text
  pub raw_records : Option (List Text)
  pub error_text : Option Text

-- What the resolver answers for the TXT records of a name; `ok` also where there are none.
pub data TxtAnswer : Type 0 where
  ok : List Text → TxtAnswer
  failed : Option Text → TxtAnswer

-- `normalizeName` of doh.ts.
abbrev pub drop_dot : Text → Text
drop_dot [] = []
drop_dot (c ∷ []) = if c == b'.' then [] else c ∷ []
drop_dot (c ∷ d ∷ s) = c ∷ drop_dot (d ∷ s)

unfoldable pub normalize_name : Text → Text
normalize_name name = to_lower (drop_dot (trim name))

abbrev pub dmarc_name : Text → Text
dmarc_name n = codes "_dmarc." ++ n

abbrev pub lookup_base : Text → Option Text → DmarcLookup
lookup_base name org = record {
  status = absent;
  domain = name;
  entry = none;
  found_at = none;
  inherited = false;
  organizational_domain = org;
  raw_records = none;
  error_text = none;
}

-- The names that are asked, with whether a record there is inherited.
unfoldable pub names_to_ask : Text → Option Text → List (Text × Bool)
names_to_ask name none = (name, false) ∷ []
names_to_ask name (some org) =
    if not (is_empty org) && not (text_eq org name)
    then (name, false) ∷ (org, true) ∷ []
    else (name, false) ∷ []

unfoldable pub at_name : DmarcLookup → Text → Bool → List Text → Option DmarcLookup
at_name base n is_org [] = none
at_name base n is_org (r ∷ []) = some (record base {
  status = found;
  entry = some (parse_dmarc_record (trim r));
  found_at = some (dmarc_name n);
  inherited = is_org;
})
at_name base n is_org (r ∷ r' ∷ rs) = some (record base {
  status = multiple;
  found_at = some (dmarc_name n);
  inherited = is_org;
  raw_records = some (map trim (r ∷ r' ∷ rs));
})

-- One round of the loop: none to go on.
unfoldable pub ask_name : DmarcLookup → Text → Bool → TxtAnswer → Option DmarcLookup
ask_name base n is_org (failed e) =
    some (record base { status = error; error_text = some (get_or e (codes "DNS error")) })
ask_name base n is_org (ok records) = at_name base n is_org (keep is_dmarc_record records)

unfoldable pub ask_names : (Text → TxtAnswer) → DmarcLookup → List (Text × Bool) → DmarcLookup
ask_names txt base [] = base
ask_names txt base ((n, is_org) ∷ ns) =
    get_or (ask_name base n is_org (txt (dmarc_name n))) (ask_names txt base ns)

unfoldable pub lookup_dmarc : (Text → Option Text) → (Text → TxtAnswer) → Text → DmarcLookup
lookup_dmarc organizational_domain txt domain =
    let name = normalize_name domain in
    let org = organizational_domain name in
    ask_names txt (lookup_base name org) (names_to_ask name org)

pub data DmarcGrade : Type 0 where
  missing monitoring partial enforced strict_grade : DmarcGrade

abbrev pub grade_enforcing : RolloutPolicy → DmarcGrade
grade_enforcing reject = strict_grade
grade_enforcing _ = enforced

unfoldable pub grade_dmarc_policy : Option DmarcRecord → DmarcGrade
grade_dmarc_policy none = missing
grade_dmarc_policy (some r) =
    if not r.valid
    then missing
    else if is_p_none r.policy
    then monitoring
    else if ltb r.pct 100
    then partial
    else grade_enforcing r.policy
