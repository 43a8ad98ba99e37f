-- ===== src/DnsWrite.antt =====
-- src/dns/write-policy.ts: what the product may write to DNS. A thrown refusal is `refuse` with its
-- reason; a regular expression is the function that it decides, on the labels of the name.
pub mod Managed
pub mod Inside
mod Tests
use mathlib.Core.Option
use mathlib.Core.Option.{get_or}
use inbox_angel_worker.Common.{
  ℕ, ◌-◌, Bool, true, false, not, ◌&&◌, ◌||◌, List, [], ◌∷◌, ◌++◌, Option, none, some, leb, ltb,
  ◌==◌, if◌then◌else◌, some_of, find, length,
}
use inbox_angel_worker.Text.{
  Text, codes, text_eq, to_lower, trim, is_empty, is_space, split_on, cut, starts_with, ends_with,
  includes, strip_quotes,
}

pub data Mode : Type 0 where
  selfhost saas : Mode

pub record DnsRequest : Type 0 where
  pub method : Text
  pub zone_name : Option Text
  pub type : Option Text
  pub name : Option Text
  pub content : Option Text
  pub mode : Mode
  pub patch_keys : Option (List Text)
  pub cname_targets : Option (List Text)
  pub allowed_apexes : Option (List Text)

pub data Refusal : Type 0 where
  not_plain_hostname outside_zone forbidden_key half_rename forbidden_method no_type_or_name
        no_content txt_without_content spf_elsewhere spf_not_allowed txt_not_managed
        cname_not_managed cname_target mx_in_saas mx_at_apex mx_target type_not_managed
        no_records_zone other_zone type_not_hosted not_below_apex :
      Refusal

pub data Checked (A : Type 0) : Type 0 where
  pass : A → Checked A
  refuse : Refusal → Checked A

abbrev pub upper_code : ℕ → ℕ
upper_code c = if leb b'a' c && leb c b'z' then c - 32 else c

unfoldable pub to_upper : Text → Text
to_upper [] = []
to_upper (c ∷ s) = upper_code c ∷ to_upper s

abbrev pub allowed_keys : List Text
allowed_keys =
    codes "content"
    ∷ codes "ttl"
    ∷ codes "comment"
    ∷ codes "proxied"
    ∷ codes "priority"
    ∷ codes "name"
    ∷ codes "type"
    ∷ []

abbrev pub is_one_of : List Text → Text → Bool
is_one_of ts t = some_of (text_eq t) ts

-- `[a-z0-9_]`.
abbrev pub is_word : ℕ → Bool
is_word c = leb b'a' c && leb c b'z' || (leb b'0' c && leb c b'9' || c == b'_')

abbrev pub ends_label : Text → Bool
ends_label [] = false
ends_label (c ∷ []) = is_word c
ends_label (c ∷ d ∷ s) = (is_word c || c == b'-') && ends_label (d ∷ s)

-- `LABEL`.
unfoldable pub is_label : Text → Bool
is_label [] = false
is_label (c ∷ s) = is_word c && ends_label (c ∷ s)

abbrev pub all_labels : List Text → Bool
all_labels ls = not (some_of (λ l. not (is_label l)) ls)

-- `HOST_RE`.
unfoldable pub is_host : Text → Bool
is_host n = all_labels (split_on b'.' n)

-- `_report` and `_dmarc`, with a label after them.
abbrev pub has_report : List Text → Bool
has_report [] = false
has_report (a ∷ []) = false
has_report (a ∷ b ∷ []) = false
has_report (a ∷ b ∷ c ∷ ls) =
    text_eq a (codes "_report") && text_eq b (codes "_dmarc") || has_report (b ∷ c ∷ ls)

abbrev pub report_below : List Text → Bool
report_below [] = false
report_below (_ ∷ ls) = has_report ls

-- `REPORT_AUTH`.
unfoldable pub is_report_auth : Text → Bool
is_report_auth n = is_host n && report_below (split_on b'.' n)

abbrev pub is_mx_label : Text → Bool
is_mx_label s =
    not (is_empty s)
    && not
        (some_of (λ c. not (leb b'a' c && leb c b'z' || (leb b'0' c && leb c b'9' || c == b'-'))) s)

-- `MX_TARGET`.
unfoldable pub is_mx_target : Text → Bool
is_mx_target s = elim (cut b'.' s) [
  | none ↦ false
  | some (host, rest) ↦ is_mx_label host && text_eq rest (codes "mx.cloudflare.net")
]

unfoldable pub bare : Text → Text
bare s = trim (strip_quotes (trim s))

abbrev pub drop_dot : Text → Text
drop_dot [] = []
drop_dot (c ∷ []) = if c == b'.' then [] else c ∷ []
drop_dot (c ∷ d ∷ s) = c ∷ drop_dot (d ∷ s)

unfoldable pub norm : Text → Text
norm s = drop_dot (to_lower (trim s))

abbrev pub is_mx : Text → Bool
is_mx t = text_eq t (codes "MX")

abbrev pub is_selfhost : Mode → Bool
is_selfhost selfhost = true
is_selfhost saas = false

-- `w.zoneName ? norm(w.zoneName) : undefined`, none also for a zone that norm leaves empty.
abbrev pub non_empty : Text → Option Text
non_empty t = if is_empty t then none else some t

unfoldable pub zone_of : Option Text → Option Text
zone_of none = none
zone_of (some z) = if is_empty z then none else non_empty (norm z)

unfoldable pub place : DnsRequest → Text → Text → Option Text → Checked Text
place w n type none = pass n
place w n type (some zone) =
    if text_eq n zone || ends_with (b'.' ∷ zone) n
    then pass n
    else if is_mx type && (is_selfhost w.mode && not (includes (codes ".") n))
    then pass (n ++ b'.' ∷ zone)
    else refuse outside_zone

unfoldable pub resolve_name : DnsRequest → Text → Text → Checked Text
resolve_name w name type =
    if not (is_host (norm name)) || ltb 253 (length (norm name))
    then refuse not_plain_hostname
    else place w (norm name) type (zone_of w.zone_name)

abbrev pub starts_space : Text → Bool
starts_space [] = true
starts_space (c ∷ _) = is_space c

abbrev pub drop_text : Text → Text → Text
drop_text [] s = s
drop_text (_ ∷ p) [] = []
drop_text (_ ∷ p) (_ ∷ s) = drop_text p s

-- `/^v=spf1(\s|$)/i`.
unfoldable pub is_spf : Text → Bool
is_spf c = starts_with (codes "v=spf1") (to_lower c) && starts_space (drop_text (codes "v=spf1") c)

-- `/^v=DMARC1/i`.
unfoldable pub is_dmarc1 : Text → Bool
is_dmarc1 c = starts_with (codes "v=dmarc1") (to_lower c)

abbrev pub has_underscore : Text → Bool
has_underscore n = some_of (starts_with (codes "_")) (split_on b'.' n)

unfoldable pub check_spf : DnsRequest → Text → Option (List Text) → Checked Unit
check_spf w n (some apexes) =
    if some_of (λ a. text_eq (norm a) n) apexes then pass tt else refuse spf_elsewhere
check_spf w n none =
    if has_underscore n || starts_with (codes "mta-sts.") n then refuse spf_not_allowed else pass tt

abbrev pub is_managed_txt : Text → Bool
is_managed_txt n =
    starts_with (codes "_dmarc.") n
    || (starts_with (codes "_mta-sts.") n || starts_with (codes "_smtp._tls.") n)

unfoldable pub check_txt : DnsRequest → Text → Option Text → Checked Unit
check_txt w n none = refuse txt_without_content
check_txt w n (some c) =
    if is_spf c
    then check_spf w n w.allowed_apexes
    else if is_managed_txt n
    then pass tt
    else if is_report_auth n && is_dmarc1 c
    then pass tt
    else refuse txt_not_managed

abbrev pub is_target : Option (List Text) → Text → Bool
is_target targets c = some_of (λ t. text_eq (norm t) (norm c)) (get_or targets [])

unfoldable pub check_cname : DnsRequest → Text → Option Text → Checked Unit
check_cname w n content =
    if not (starts_with (codes "mta-sts.") n) then refuse cname_not_managed else elim content [
      | none ↦ refuse cname_target
      | some c ↦ if is_target w.cname_targets c then pass tt else refuse cname_target
    ]

unfoldable pub check_mx : DnsRequest → Text → Option Text → Checked Unit
check_mx w n content =
    if not (is_selfhost w.mode)
    then refuse mx_in_saas
    else if text_eq n (norm (get_or w.zone_name []))
    then refuse mx_at_apex
    else elim content [
      | none ↦ refuse mx_target
      | some c ↦ if is_mx_target (norm c) then pass tt else refuse mx_target
    ]

-- The `switch` on the type.
unfoldable pub check_type : DnsRequest → Text → Text → Option Text → Checked Unit
check_type w type n content =
    if text_eq type (codes "TXT")
    then check_txt w n content
    else if text_eq type (codes "CNAME")
    then check_cname w n content
    else if is_mx type
    then check_mx w n content
    else refuse type_not_managed

abbrev pub is_none {ℓ} : {A : Type ℓ} → Option A → Bool
is_none none = true
is_none (some _) = false

unfoldable pub check_named : DnsRequest → Bool → Text → Checked Text → Checked Unit
check_named w is_patch type (refuse r) = refuse r
check_named w is_patch type (pass n) =
    if is_none w.content && not is_patch
    then refuse no_content
    else check_type w type n (Option.map bare w.content)

unfoldable pub check_record : DnsRequest → Bool → Option Text → Option Text → Checked Unit
check_record w is_patch (some type) (some name) =
    check_named w is_patch (to_upper type) (resolve_name w name (to_upper type))
check_record w is_patch _ _ = refuse no_type_or_name

abbrev pub has_bad_key : Option (List Text) → Bool
has_bad_key keys = some_of (λ k. not (is_one_of allowed_keys k)) (get_or keys [])

unfoldable pub assert_dns_write_allowed : DnsRequest → Checked Unit
assert_dns_write_allowed w =
    let method = to_upper w.method in
    if text_eq method (codes "GET")
      || (text_eq method (codes "HEAD") || text_eq method (codes "DELETE"))
    then pass tt
    else if text_eq method (codes "PATCH")
    then (if has_bad_key w.patch_keys
        then refuse forbidden_key
        else if is_none w.name && is_none w.type
        then pass tt
        else if is_none w.name || is_none w.type
        then refuse half_rename
        else check_record w true w.type w.name)
    else if text_eq method (codes "POST") || text_eq method (codes "PUT")
    then check_record w false w.type w.name
    else refuse forbidden_method

pub record HostedConfig : Type 0 where
  pub records_zone : Option Text
  pub records_label : Text

unfoldable pub check_hosted_record : Text → Text → Option Text → Option Text → Checked Unit
check_hosted_record zone label (some type) (some name) =
    if not (is_one_of (codes "TXT" ∷ codes "AAAA" ∷ codes "CNAME" ∷ []) (to_upper type))
    then refuse type_not_hosted
    else if not (is_host (norm name))
        || not (ends_with (b'.' ∷ (to_lower label ++ b'.' ∷ zone)) (norm name))
    then refuse not_below_apex
    else pass tt
check_hosted_record zone label _ _ = refuse no_type_or_name

unfoldable pub check_hosted : DnsRequest → Text → Text → Checked Unit
check_hosted w zone label =
    let method = to_upper w.method in
    if text_eq method (codes "DELETE")
    then pass tt
    else if text_eq method (codes "PATCH")
    then (if has_bad_key w.patch_keys
        then refuse forbidden_key
        else if is_none w.name && is_none w.type
        then pass tt
        else check_hosted_record zone label w.type w.name)
    else if text_eq method (codes "POST") || text_eq method (codes "PUT")
    then check_hosted_record zone label w.type w.name
    else refuse forbidden_method

abbrev pub is_zone : Option Text → Text → Bool
is_zone none zone = false
is_zone (some z) zone = not (is_empty z) && text_eq (norm z) zone

unfoldable pub in_zone : DnsRequest → Text → Option Text → Checked Unit
in_zone w label none = refuse no_records_zone
in_zone w label (some z) =
    if is_empty z
    then refuse no_records_zone
    else if is_zone w.zone_name (norm z)
    then check_hosted w (norm z) label
    else refuse other_zone

unfoldable pub assert_hosted_dns_write : DnsRequest → HostedConfig → Checked Unit
assert_hosted_dns_write w cfg = in_zone w cfg.records_label cfg.records_zone
