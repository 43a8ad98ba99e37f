-- ===== src/Spf/Flatten.antt =====
-- packages/dns-checks/src/spf.ts, flattening, and src/hosted/spf.ts. `collectIps` follows includes and
-- redirects without a limit, so the walk here recurs on fuel and answers none where it runs out.
pub mod Total
pub mod Grows
pub mod Covers
pub mod Terms
pub mod Complete
pub mod Tests
use inbox_angel_worker.Common.{
  ℕ, zero, suc, ◌+◌, ◌*◌, Bool, true, false, not, ◌&&◌, ◌||◌, List, [], ◌∷◌, ◌++◌, Option, none,
  some, ltb, if◌then◌else◌, some_of, length,
}
use inbox_angel_worker.Common.Int.{ℤ, pos, negsuc}
use inbox_angel_worker.Text.{Text, codes, text_eq, to_lower, is_empty, includes, join, print_nat}
use inbox_angel_worker.Dmarc.{TxtAnswer, ok, normalize_name}
use inbox_angel_worker.Spf.{
  SpfTerm, SpfQualifier, plus, minus, tilde, question, is_mechanism, is_all, parse_spf_terms,
}
use inbox_angel_worker.Spf.Walk.{
  SpfIssueCode, dns_error, include_no_record, multiple_records, loop, Resolver, TxtFetch,
  one_record, no_record, many_records, fetch_failed, fetch_spf_txt, has_macro, target_of,
}

-- The sets of what was seen have the entries in lower case, and the kept terms themselves.
pub record Collected : Type 0 where
  pub ips : List Text
  pub extra : List Text
  pub errors : List (SpfIssueCode × Text)

-- The walk of a target: a path, and whether the target's `all` is the policy's.
abbrev pub Visit : Type 0
Visit = Text → List Text → Bool → Collected → Option (Option Text × Collected)

abbrev pub add_error : SpfIssueCode → Text → Collected → Collected
add_error code d out = record out { errors = out.errors ++ (code, d) ∷ [] }

abbrev pub has_ip : Text → Collected → Bool
has_ip k out = some_of (λ e. text_eq (to_lower e) k) out.ips

unfoldable pub add_ip : Text → Collected → Collected
add_ip entry out =
    if has_ip (to_lower entry) out then out else record out { ips = out.ips ++ entry ∷ [] }

unfoldable pub keep_raw : Text → Collected → Collected
keep_raw raw out =
    let k = if includes (codes "%") raw then raw else to_lower raw in
    if some_of (text_eq k) out.extra then out else record out { extra = out.extra ++ k ∷ [] }

abbrev pub shown_qualifier : SpfQualifier → Text
shown_qualifier plus = []
shown_qualifier minus = codes "-"
shown_qualifier tilde = codes "~"
shown_qualifier question = codes "?"

abbrev pub is_plus : SpfQualifier → Bool
is_plus plus = true
is_plus _ = false

abbrev pub value_or_empty : Option Text → Text
value_or_empty none = []
value_or_empty (some v) = v

abbrev pub ip_entry : SpfTerm → Text
ip_entry t = shown_qualifier t.qualifier ++ t.name ++ codes ":" ++ value_or_empty t.value

abbrev pub shown_cidr : Text → Option ℤ → Text
shown_cidr slash none = []
shown_cidr slash (some (pos n)) = slash ++ print_nat n
shown_cidr slash (some (negsuc n)) = slash ++ codes "-" ++ print_nat (suc n)

-- A bare `a` or `mx` of an included record, with the domain that it means.
abbrev pub pinned : Text → SpfTerm → Text
pinned d t =
    shown_qualifier t.qualifier
    ++ t.name
    ++ codes ":"
    ++ d
    ++ shown_cidr (codes "/") t.cidr4
    ++ shown_cidr (codes "//") t.cidr6

abbrev pub keep_own : Text → Text → SpfTerm → Option Text → Collected → Collected
keep_own root d t none out = keep_raw (if text_eq d root then t.raw else pinned d t) out
keep_own root d t (some v) out = keep_raw t.raw out

abbrev pub is_ip : SpfTerm → Bool
is_ip t = text_eq t.name (codes "ip4") || text_eq t.name (codes "ip6")

abbrev pub is_kept : SpfTerm → Bool
is_kept t =
    text_eq t.name (codes "a")
    || (text_eq t.name (codes "mx")
        || (text_eq t.name (codes "ptr") || text_eq t.name (codes "exists")))

-- Each term answers the token of `all` that stands after it.
unfoldable pub visit_redirect :
    Visit
    → Text
    → List Text
    → Bool
    → SpfTerm
    → Option Text
    → Collected
    → Option (Option Text × Collected)
visit_redirect visit d path policy t token out =
    let target = target_of t.value in
    if has_macro target
    then some (token, keep_raw t.raw out)
    else if some_of (text_eq target) path
    then some (token, add_error loop d out)
    else visit target (path ++ target ∷ []) policy out

-- What an included record says of `all` is dropped.
abbrev pub with_token :
    Option Text → Option (Option Text × Collected) → Option (Option Text × Collected)
with_token token none = none
with_token token (some (_, out)) = some (token, out)

abbrev pub is_unfollowed : SpfTerm → Bool
is_unfollowed t =
    is_empty (target_of t.value) || (has_macro (target_of t.value) || not (is_plus t.qualifier))

unfoldable pub visit_include :
    Visit → Text → List Text → SpfTerm → Option Text → Collected → Option (Option Text × Collected)
visit_include visit d path t token out =
    let target = target_of t.value in
    if is_unfollowed t
    then some (token, keep_raw t.raw out)
    else if some_of (text_eq target) path
    then some (token, add_error loop d out)
    else with_token token (visit target (path ++ target ∷ []) false out)

abbrev pub has_value : Option Text → Bool
has_value none = false
has_value (some v) = not (is_empty v)

abbrev pub is_followed_redirect : Bool → SpfTerm → Bool
is_followed_redirect has_all t =
    text_eq t.name (codes "redirect") && (not has_all && has_value t.value)

unfoldable pub visit_mechanism :
    Visit
    → Text
    → Text
    → List Text
    → Bool
    → SpfTerm
    → Option Text
    → Collected
    → Option (Option Text × Collected)
visit_mechanism visit root d path policy t token out =
    if is_ip t
    then some (token, add_ip (ip_entry t) out)
    else if text_eq t.name (codes "include")
    then visit_include visit d path t token out
    else if text_eq t.name (codes "all")
    then some ((if policy then some (to_lower t.raw) else token), out)
    else if is_kept t
    then some (token, keep_own root d t t.value out)
    else some (token, out)

unfoldable pub visit_term :
    Visit
    → Text
    → Text
    → List Text
    → Bool
    → Bool
    → SpfTerm
    → Option Text
    → Collected
    → Option (Option Text × Collected)
visit_term visit root d path policy has_all t token out =
    if is_mechanism t.kind
    then visit_mechanism visit root d path policy t token out
    else if is_followed_redirect has_all t
    then visit_redirect visit d path policy t token out
    else some (token, out)

abbrev pub and_then :
    Option (Option Text × Collected)
    → (Option Text → Collected → Option (Option Text × Collected))
    → Option (Option Text × Collected)
and_then none f = none
and_then (some (token, out)) f = f token out

unfoldable pub visit_terms :
    Visit
    → Text
    → Text
    → List Text
    → Bool
    → Bool
    → List SpfTerm
    → Option Text
    → Collected
    → Option (Option Text × Collected)
visit_terms visit root d path policy has_all [] token out = some (token, out)
visit_terms visit root d path policy has_all (t ∷ ts) token out =
    and_then (visit_term visit root d path policy has_all t token out)
      (λ token' out'. visit_terms visit root d path policy has_all ts token' out')

abbrev pub missing_record : Text → List Text → Collected → Collected
missing_record d [] out = out
missing_record d (_ ∷ []) out = out
missing_record d (_ ∷ _ ∷ _) out = add_error include_no_record d out

unfoldable pub visit_fetch :
    Visit → Text → Text → List Text → Bool → TxtFetch → Collected → Option (Option Text × Collected)
visit_fetch visit root d path policy fetch_failed out = some (none, add_error dns_error d out)
visit_fetch visit root d path policy no_record out = some (none, missing_record d path out)
visit_fetch visit root d path policy (many_records _) out =
    some (none, add_error multiple_records d out)
visit_fetch visit root d path policy (one_record raw) out =
    visit_terms visit root d path policy (some_of is_all (parse_spf_terms raw))
      (parse_spf_terms raw) none out

unfoldable pub visit : ℕ → Resolver → Text → Visit
visit zero r root d path policy out = none
visit (suc fuel) r root d path policy out =
    visit_fetch (λ d' path' policy' out'. visit fuel r root d' path' policy' out') root d path
      policy (fetch_spf_txt r d) out

abbrev pub nothing : Collected
nothing = record { ips = []; extra = []; errors = [] }

abbrev pub qualifier_or_default : Option Text → Text
qualifier_or_default none = codes "~all"
qualifier_or_default (some all) = if is_empty all then codes "~all" else all

abbrev pub answer_of : Option (Option Text × Collected) → Option (Text × Collected)
answer_of none = none
answer_of (some (all, out)) = some (qualifier_or_default all, out)

-- What is collected, with the token of `all`.
unfoldable pub collect_ips : ℕ → Text → Resolver → Option (Text × Collected)
collect_ips fuel domain r =
    let root = normalize_name domain in answer_of (visit fuel r root root (root ∷ []) true nothing)

-- `ips` without what stood before.
abbrev pub dedupe : List Text → List Text → List Text
dedupe seen [] = []
dedupe seen (ip ∷ ips) =
    if some_of (text_eq ip) seen then dedupe seen ips else ip ∷ dedupe (ip ∷ seen) ips

unfoldable pub build_flat_record : List Text → List Text → Text → Text
build_flat_record ips extra all =
    join (codes " ") (codes "v=spf1" ∷ dedupe [] ips ++ extra ++ all ∷ [])

pub record FlattenPreview : Type 0 where
  pub flattened_record : Text
  pub ip_count : ℕ
  pub remaining_lookups : ℕ
  pub needs_splitting : Bool
  pub too_long_for_udp : Bool
  pub incomplete : Bool
  pub errors : List (SpfIssueCode × Text)

-- The records are ASCII, so a text has as many bytes as code units.
unfoldable pub preview_flatten : ℕ → Text → Resolver → Option FlattenPreview
preview_flatten fuel domain r = elim (collect_ips fuel domain r) [
  | none ↦ none
  | some (all, out) ↦
      let flattened = build_flat_record out.ips out.extra all in
      some (record {
        flattened_record = flattened;
        ip_count = length out.ips;
        remaining_lookups = length out.extra;
        needs_splitting = ltb 255 (length flattened);
        too_long_for_udp = ltb 450 (length flattened);
        incomplete = ltb 0 (length out.errors);
        errors = out.errors;
      })
]

-- The resolver, but TXT at the domain answers with the record.
unfoldable pub with_spf_source : Resolver → Text → Text → Resolver
with_spf_source r domain source = record r {
  txt = λ name.
      if text_eq (normalize_name name) (normalize_name domain)
      then ok (source ∷ [])
      else r.txt name;
}

pub data FlatSpf : Type 0 where
  flat : Text → ℕ → FlatSpf
  unflat : List (SpfIssueCode × Text) → FlatSpf

abbrev pub flat_of : Text × Collected → FlatSpf
flat_of (all, out) =
    if ltb 0 (length out.errors)
    then unflat out.errors
    else flat (build_flat_record out.ips out.extra all) (length out.ips)

unfoldable pub flatten_source : ℕ → Text → Text → Resolver → Option FlatSpf
flatten_source fuel domain source r =
    elim (collect_ips fuel domain (with_spf_source r domain source)) [
      | none ↦ none
      | some c ↦ some (flat_of c)
    ]
