-- ===== src/Pointers.antt =====
-- src/hosted/pointers.ts, with hostedNames of src/hosted/records.ts: has the customer pointed their
-- names at the hosted records. The resolver is a pair of functions of a name.
pub mod Outage
mod Tests
use inbox_angel_worker.Common.{
  Bool, true, false, not, ◌&&◌, List, [], ◌∷◌, ◌++◌, map, Option, none, some, if◌then◌else◌,
  some_of, keep,
}
use inbox_angel_worker.Text.{Text, codes, text_eq, is_empty}
use inbox_angel_worker.Dmarc.{TxtAnswer, ok, failed, normalize_name}
use inbox_angel_worker.Spf.{SpfTerm, is_mechanism, is_spf_record, parse_spf_record}

pub data PointerStatus : Type 0 where
  in_place missing wrong error : PointerStatus

-- An answer for CNAME.
pub data CnameAnswer : Type 0 where
  targets : List Text → CnameAnswer
  nodata nxdomain lookup_failed : CnameAnswer

pub record Resolver : Type 0 where
  pub cname : Text → CnameAnswer
  pub txt : Text → TxtAnswer

pub record HostedNames : Type 0 where
  pub dmarc : Text
  pub spf : Text
  pub tls_rpt : Text
  pub mta_sts : Text

unfoldable pub hosted_names : Text → Text → HostedNames
hosted_names id apex = record {
  dmarc = id ++ codes "._dmarc." ++ apex;
  spf = id ++ codes "._spf." ++ apex;
  tls_rpt = id ++ codes "._tlsrpt." ++ apex;
  mta_sts = codes "mta-sts." ++ id ++ b'.' ∷ apex;
}

abbrev pub other_records : TxtAnswer → PointerStatus
other_records (failed _) = error
other_records (ok []) = missing
other_records (ok (_ ∷ _)) = wrong

abbrev pub judge_cname : CnameAnswer → TxtAnswer → Text → PointerStatus
judge_cname lookup_failed txt target = error
judge_cname (targets ts) txt target =
    if some_of (λ t. text_eq (normalize_name t) target) ts then in_place else wrong
judge_cname nxdomain txt target = missing
judge_cname nodata txt target = other_records txt

unfoldable pub check_cname : Resolver → Text → Text → PointerStatus
check_cname r name target = judge_cname (r.cname name) (r.txt name) target

abbrev pub has_value : Option Text → Bool
has_value none = false
has_value (some v) = not (is_empty v)

abbrev pub is_include : SpfTerm → Bool
is_include t = is_mechanism t.kind && (text_eq t.name (codes "include") && has_value t.value)

abbrev pub value_name : Option Text → Text
value_name none = []
value_name (some v) = normalize_name v

-- The local `parseSpfTerms`.
unfoldable pub include_names : Text → List Text
include_names raw =
    map (λ (t : SpfTerm). value_name t.value) (keep is_include (parse_spf_record raw).terms)

abbrev pub includes_name : Text → Text → Bool
includes_name include raw = some_of (text_eq include) (include_names raw)

abbrev pub judge_records : List Text → Text → PointerStatus
judge_records [] include = missing
judge_records (r ∷ rs) include =
    if some_of (includes_name include) (r ∷ rs) then in_place else wrong

abbrev pub judge_txt : TxtAnswer → Text → PointerStatus
judge_txt (failed _) include = error
judge_txt (ok records) include = judge_records (keep is_spf_record records) include

unfoldable pub check_spf_include : Resolver → Text → Text → PointerStatus
check_spf_include r domain include = judge_txt (r.txt domain) include

pub record PointerReport : Type 0 where
  pub dmarc : PointerStatus
  pub spf : PointerStatus
  pub mta_sts : PointerStatus
  pub tls_rpt : PointerStatus

unfoldable pub verify_pointers : Text → Text → Text → Resolver → PointerReport
verify_pointers domain id apex r =
    let names = hosted_names id apex in
    let d = normalize_name domain in
    record {
      dmarc = check_cname r (codes "_dmarc." ++ d) names.dmarc;
      spf = check_spf_include r d names.spf;
      mta_sts = check_cname r (codes "_mta-sts." ++ d) names.mta_sts;
      tls_rpt = check_cname r (codes "_smtp._tls." ++ d) names.tls_rpt;
    }

-- The stored columns, each perhaps not set.
pub record HostedRow : Type 0 where
  pub dmarc_pointer : Option PointerStatus
  pub spf_pointer : Option PointerStatus
  pub mta_sts_pointer : Option PointerStatus
  pub tls_rpt_pointer : Option PointerStatus

abbrev pub keep_status : PointerStatus → Option PointerStatus → PointerStatus
keep_status error (some before) = before
keep_status next _ = next

unfoldable pub merge_pointer_report : HostedRow → PointerReport → PointerReport
merge_pointer_report prev r = record {
  dmarc = keep_status r.dmarc prev.dmarc_pointer;
  spf = keep_status r.spf prev.spf_pointer;
  mta_sts = keep_status r.mta_sts prev.mta_sts_pointer;
  tls_rpt = keep_status r.tls_rpt prev.tls_rpt_pointer;
}
