-- ===== src/Spf/Walk.antt =====
-- packages/dns-checks/src/spf.ts, analysis: the walk over the terms of a record. A resolver is a
-- function from names to answers, which do not change during an analysis, so the cache of the code has
-- no effect. The walk recurs on what is left of MAX_DEPTH. An issue has its code and its domain.
use inbox_angel_worker.Common.{
  ℕ, zero, suc, Bool, true, false, not, ◌&&◌, ◌||◌, List, [], ◌∷◌, ◌++◌, map, Option, none, some,
  leb, ltb, ◌==◌, if◌then◌else◌, some_of, keep, length,
}
use inbox_angel_worker.Text.{Text, codes, text_eq, to_lower, trim, is_empty, includes}
use inbox_angel_worker.Dmarc.{TxtAnswer, ok, failed, normalize_name, drop_dot}
use inbox_angel_worker.Spf.{
  SpfTerm, SpfRecord, is_mechanism, is_all, is_spf_record, parse_spf_record, parse_spf_terms,
  term_counts_as_lookup, words,
}

pub data SpfIssueCode : Type 0 where
  multiple_records lookup_limit void_lookup_limit mx_name_limit loop include_no_record
        redirect_no_record syntax depth_limit dns_error :
      SpfIssueCode

pub data SpfStatus : Type 0 where
  fine absent permerror temperror : SpfStatus

-- An answer for A, AAAA or MX: the data of the answers, no data, or a failure.
pub data Answer : Type 0 where
  answers : List Text → Answer
  no_answer : Answer
  lookup_failed : Answer

pub data RecordType : Type 0 where
  a_type aaaa_type mx_type : RecordType

pub record Resolver : Type 0 where
  pub txt : Text → TxtAnswer
  pub resolve : Text → RecordType → Answer

abbrev pub spf_lookup_limit : ℕ
spf_lookup_limit = 10

abbrev pub spf_void_limit : ℕ
spf_void_limit = 2

abbrev pub spf_mx_name_limit : ℕ
spf_mx_name_limit = 10

abbrev pub max_depth : ℕ
max_depth = 12

pub record Ctx : Type 0 where
  pub lookups : ℕ
  pub voids : ℕ
  pub issues : List (SpfIssueCode × Text)
  pub reached : List Text
  pub failed_dns : Bool

pub data TxtFetch : Type 0 where
  one_record : Text → TxtFetch
  no_record : TxtFetch
  many_records : List Text → TxtFetch
  fetch_failed : TxtFetch

abbrev pub fetch_of : List Text → TxtFetch
fetch_of [] = no_record
fetch_of (r ∷ []) = one_record (trim r)
fetch_of (r ∷ s ∷ rs) = many_records (map trim (r ∷ s ∷ rs))

abbrev pub fetch_answer : TxtAnswer → TxtFetch
fetch_answer (failed _) = fetch_failed
fetch_answer (ok records) = fetch_of (keep is_spf_record records)

unfoldable pub fetch_spf_txt : Resolver → Text → TxtFetch
fetch_spf_txt r domain = fetch_answer (r.txt (normalize_name domain))

abbrev pub add_issue : SpfIssueCode → Text → Ctx → Ctx
add_issue code domain c = record c { issues = c.issues ++ (code, domain) ∷ [] }

abbrev pub note_dns_error : Text → Ctx → Ctx
note_dns_error domain c = record (add_issue dns_error domain c) { failed_dns = true }

unfoldable pub count_void : Text → Ctx → Ctx
count_void domain c =
    if suc c.voids == suc spf_void_limit
    then add_issue void_lookup_limit domain (record c { voids = suc c.voids })
    else record c { voids = suc c.voids }

unfoldable pub count_lookup : Text → Ctx → Ctx
count_lookup domain c =
    if suc c.lookups == suc spf_lookup_limit
    then add_issue lookup_limit domain (record c { lookups = suc c.lookups })
    else record c { lookups = suc c.lookups }

abbrev pub has_macro : Text → Bool
has_macro s = includes (codes "%") s

abbrev pub mechanism_names : List Text
mechanism_names =
    codes "all"
    ∷ codes "include"
    ∷ codes "a"
    ∷ codes "mx"
    ∷ codes "ptr"
    ∷ codes "ip4"
    ∷ codes "ip6"
    ∷ codes "exists"
    ∷ []

-- The target of `a` and `mx`: the value, or the domain where there is none.
unfoldable pub own_target : Option Text → Text → Text
own_target none domain = normalize_name domain
own_target (some v) domain =
    if has_macro v then [] else if is_empty v then normalize_name domain else normalize_name v

unfoldable pub exists_target : Option Text → Text
exists_target none = []
exists_target (some v) = if has_macro v then [] else if is_empty v then [] else normalize_name v

unfoldable pub judge_addresses : Text → Answer → Answer → Ctx → Ctx
judge_addresses target lookup_failed b c = note_dns_error target c
judge_addresses target a lookup_failed c = note_dns_error target c
judge_addresses target no_answer no_answer c = count_void target c
judge_addresses target a b c = c

-- A failed or void lookup of the addresses of a host.
abbrev pub check_host : Resolver → Text → Ctx → Ctx
check_host r host c =
    if is_empty host
    then c
    else judge_addresses host (r.resolve host a_type) (r.resolve host aaaa_type) c

abbrev pub second_word : List Text → Text
second_word [] = []
second_word (_ ∷ []) = []
second_word (_ ∷ w ∷ _) = to_lower (drop_dot w)

unfoldable pub check_mx_hosts : Resolver → List Text → Ctx → Ctx
check_mx_hosts r [] c = c
check_mx_hosts r (d ∷ ds) c = check_mx_hosts r ds (check_host r (second_word (words d)) c)

unfoldable pub judge_mx : Resolver → Text → Answer → Ctx → Ctx
judge_mx r target lookup_failed c = note_dns_error target c
judge_mx r target no_answer c = count_void target c
judge_mx r target (answers ds) c =
    if ltb spf_mx_name_limit (length ds)
    then add_issue mx_name_limit target c
    else check_mx_hosts r ds c

unfoldable pub judge_exists : Text → Answer → Ctx → Ctx
judge_exists target lookup_failed c = note_dns_error target c
judge_exists target no_answer c = count_void target c
judge_exists target (answers _) c = c

abbrev pub check_mx : Resolver → Text → Ctx → Ctx
check_mx r target c = if is_empty target then c else judge_mx r target (r.resolve target mx_type) c

abbrev pub check_exists : Resolver → Text → Ctx → Ctx
check_exists r target c =
    if is_empty target then c else judge_exists target (r.resolve target a_type) c

unfoldable pub check_addresses : Resolver → Text → SpfTerm → Ctx → Ctx
check_addresses r domain t c =
    if text_eq t.name (codes "a")
    then check_host r (own_target t.value domain) c
    else if text_eq t.name (codes "mx")
    then check_mx r (own_target t.value domain) c
    else if text_eq t.name (codes "exists")
    then check_exists r (exists_target t.value) c
    else c

-- How the record of a target is walked: none where that would be deeper than MAX_DEPTH.
abbrev pub Follow : Type 0
Follow = Option (Text → Text → List Text → Ctx → Ctx)

abbrev pub no_record_code : Text → SpfIssueCode
no_record_code name =
    if text_eq name (codes "include") then include_no_record else redirect_no_record

unfoldable pub follow_fetch :
    (Text → Text → List Text → Ctx → Ctx) → Text → Text → List Text → TxtFetch → Ctx → Ctx
follow_fetch walk' name target path fetch_failed c = note_dns_error target c
follow_fetch walk' name target path no_record c =
    count_void target (add_issue (no_record_code name) target c)
follow_fetch walk' name target path (many_records rs) c = add_issue multiple_records target c
follow_fetch walk' name target path (one_record raw) c = walk' target raw (path ++ target ∷ []) c

unfoldable pub follow_target : Resolver → Follow → Text → Text → Text → List Text → Ctx → Ctx
follow_target r none name domain target path c = add_issue depth_limit domain c
follow_target r (some walk') name domain target path c =
    follow_fetch walk' name target path (fetch_spf_txt r target) c

abbrev pub reach : Text → Ctx → Ctx
reach target c = record c { reached = c.reached ++ target ∷ [] }

abbrev pub target_of : Option Text → Text
target_of none = []
target_of (some v) = if is_empty v then [] else normalize_name v

-- `include` and `redirect`.
unfoldable pub check_reference : Resolver → Follow → Text → List Text → SpfTerm → Ctx → Ctx
check_reference r follow domain path t c =
    let target = target_of t.value in
    if is_empty target
    then add_issue syntax domain c
    else if has_macro target
    then c
    else if some_of (text_eq target) path
    then add_issue loop domain (reach target c)
    else follow_target r follow t.name domain target path (reach target c)

abbrev pub is_reference : SpfTerm → Bool
is_reference t = text_eq t.name (codes "include") || text_eq t.name (codes "redirect")

unfoldable pub check_counted : Resolver → Follow → Text → List Text → SpfTerm → Ctx → Ctx
check_counted r follow domain path t c =
    if is_reference t
    then check_reference r follow domain path t c
    else check_addresses r domain t c

abbrev pub is_unknown : SpfTerm → Bool
is_unknown t = is_mechanism t.kind && not (some_of (text_eq t.name) mechanism_names)

-- `redirect` next to `all`, or a term that needs no lookup.
abbrev pub is_skipped : Bool → SpfTerm → Bool
is_skipped has_all t =
    not (is_mechanism t.kind) && (text_eq t.name (codes "redirect") && has_all)
    || not (term_counts_as_lookup t)

-- One term; the second part says whether the loop goes on.
unfoldable pub check_term : Resolver → Follow → Text → List Text → Bool → SpfTerm → Ctx → Ctx × Bool
check_term r follow domain path has_all t c =
    if is_unknown t
    then (add_issue syntax domain c, true)
    else if is_skipped has_all t
    then (c, true)
    else if leb (count_lookup domain c).lookups spf_lookup_limit
    then (check_counted r follow domain path t (count_lookup domain c), true)
    else (count_lookup domain c, false)

unfoldable pub walk_terms : Resolver → Follow → Text → List Text → Bool → List SpfTerm → Ctx → Ctx
walk_terms r follow domain path has_all [] c = c
walk_terms r follow domain path has_all (t ∷ ts) c =
    let (c', more) = check_term r follow domain path has_all t c in
    let rest = walk_terms r follow domain path has_all ts c' in if more then rest else c'

unfoldable pub walk_record : Resolver → Follow → Text → Text → List Text → Ctx → Ctx
walk_record r follow domain raw path c =
    let terms = parse_spf_terms raw in
    walk_terms r follow domain path (some_of is_all terms) terms c

-- `walk` with `room` for `MAX_DEPTH - depth`.
unfoldable pub walk : ℕ → Resolver → Text → Text → List Text → Ctx → Ctx
walk zero r domain raw path c = walk_record r none domain raw path c
walk (suc room) r domain raw path c =
    walk_record r (some (λ d s p k. walk room r d s p k)) domain raw path c

pub record SpfAnalysis : Type 0 where
  pub domain : Text
  pub status : SpfStatus
  pub entry : Option SpfRecord
  pub lookup_count : ℕ
  pub void_lookup_count : ℕ
  pub lookup_limit_exceeded : Bool
  pub void_limit_exceeded : Bool
  pub issues : List (SpfIssueCode × Text)
  pub raw_records : Option (List Text)
  pub reached : List Text

-- `FATAL_CODES`: every code but that of a DNS failure.
abbrev pub is_fatal : SpfIssueCode × Text → Bool
is_fatal (dns_error, _) = false
is_fatal _ = true

unfoldable pub status_of : Ctx → SpfStatus
status_of c =
    if some_of is_fatal c.issues then permerror else if c.failed_dns then temperror else fine

unfoldable pub finish : Ctx → Text → Option SpfRecord → SpfStatus → Option (List Text) → SpfAnalysis
finish c domain entry status raws = record {
  domain = domain;
  status = status;
  entry = entry;
  lookup_count = c.lookups;
  void_lookup_count = c.voids;
  lookup_limit_exceeded = ltb spf_lookup_limit c.lookups;
  void_limit_exceeded = ltb spf_void_limit c.voids;
  issues = c.issues;
  raw_records = raws;
  reached = c.reached;
}

abbrev pub new_ctx : Ctx
new_ctx = record { lookups = 0; voids = 0; issues = []; reached = []; failed_dns = false }

unfoldable pub walk_root : Resolver → Text → Text → List Text → SpfAnalysis
walk_root r name raw path =
    let c = walk max_depth r name raw path new_ctx in
    finish c name (some (parse_spf_record raw)) (status_of c) none

unfoldable pub analyze_root : Resolver → Text → TxtFetch → SpfAnalysis
analyze_root r name fetch_failed = finish (note_dns_error name new_ctx) name none temperror none
analyze_root r name no_record = finish new_ctx name none absent none
analyze_root r name (many_records rs) =
    finish (add_issue multiple_records name new_ctx) name none permerror (some rs)
analyze_root r name (one_record raw) = walk_root r name raw (name ∷ [])

unfoldable pub analyze_spf : Text → Resolver → SpfAnalysis
analyze_spf domain r =
    let name = normalize_name domain in analyze_root r name (fetch_spf_txt r name)

abbrev pub path_of : Text → List Text
path_of name = if is_empty name then [] else name ∷ []

unfoldable pub analyze_spf_record : Text → Resolver → Text → SpfAnalysis
analyze_spf_record record' r domain =
    let name = normalize_name domain in
    if not (is_spf_record record')
    then finish (add_issue syntax name new_ctx) name none permerror none
    else walk_root r name (trim record') (path_of name)
