-- ===== src/DnsWrite/Tests.antt =====
-- src/dns/write-policy.ts on requests of the provisioner and of an attacker.
use inbox_angel_worker.Common.{◌≡◌, refl, ◌⊎◌, true, false, [], ◌∷◌, some, none}
use inbox_angel_worker.Text.{
  Text, codes, text_eq, starts_with, ends_with, includes, trim, to_lower, trim_start, is_space,
  split_on, cut, strip_quotes,
}
use inbox_angel_worker.DnsWrite.{
  DnsRequest, HostedConfig, pass, refuse, saas, outside_zone, type_not_managed,
  assert_dns_write_allowed, assert_hosted_dns_write, resolve_name, to_upper, norm, bare, zone_of,
  check_record, check_named, check_type, check_txt, check_cname, check_mx, check_spf, place,
  is_host, is_label, is_one_of, is_spf, is_dmarc1, is_report_auth, is_zone, in_zone, check_hosted,
  check_hosted_record,
}
use inbox_angel_worker.DnsWrite.Managed.{Writes, assert_dns_write_allowed-Writes}
use inbox_angel_worker.DnsWrite.Inside.{
  HostedWrite, resolve_name-IsInside, assert_hosted_dns_write-HostedWrite,
}

abbrev dmarc_write : DnsRequest
dmarc_write = record {
  method = codes "post";
  zone_name = some (codes "x.test");
  type = some (codes "txt");
  name = some (codes "_dmarc.Mail.x.test");
  content = some (codes "\"v=DMARC1; p=none\"");
  mode = saas;
  patch_keys = none;
  cname_targets = none;
  allowed_apexes = none;
}

abbrev address_write : DnsRequest
address_write = record dmarc_write { type = some (codes "A"); name = some (codes "x.test") }

abbrev foreign_write : DnsRequest
foreign_write = record dmarc_write { name = some (codes "_dmarc.y.test") }

abbrev hosted_write : DnsRequest
hosted_write = record dmarc_write { name = some (codes "abc.rec.x.test") }

abbrev hosted_config : HostedConfig
hosted_config = record { records_zone = some (codes "X.test."); records_label = codes "rec" }

runs : Unit {0}
unfolding assert_dns_write_allowed assert_hosted_dns_write resolve_name to_upper norm bare zone_of
    check_record check_named check_type check_txt check_cname check_mx check_spf place is_host
    is_label is_spf is_dmarc1 is_report_auth in_zone check_hosted check_hosted_record text_eq
    starts_with ends_with includes trim to_lower trim_start is_space split_on cut strip_quotes
runs = tt

dmarc_passes : assert_dns_write_allowed dmarc_write ≡ pass tt
unfolding runs
dmarc_passes = refl

address_refused : assert_dns_write_allowed address_write ≡ refuse type_not_managed
unfolding runs
address_refused = refl

foreign_refused : assert_dns_write_allowed foreign_write ≡ refuse outside_zone
unfolding runs
foreign_refused = refl

hosted_passes : assert_hosted_dns_write hosted_write hosted_config ≡ pass tt
unfolding runs
hosted_passes = refl

is_post : text_eq (to_upper (codes "post")) (codes "DELETE") ≡ false
unfolding runs
is_post = refl

posts :
    is_one_of (codes "GET" ∷ codes "HEAD" ∷ codes "DELETE" ∷ []) (to_upper (codes "post")) ≡ false
unfolding runs
posts = refl

zone_read : zone_of (some (codes "x.test")) ≡ some (codes "x.test")
unfolding runs
zone_read = refl

name_resolved :
    resolve_name dmarc_write (codes "_dmarc.Mail.x.test") (codes "TXT")
    ≡ pass (codes "_dmarc.mail.x.test")
unfolding runs
name_resolved = refl

assert_dns_write_allowed-Writes_example : Writes dmarc_write
assert_dns_write_allowed-Writes_example =
    assert_dns_write_allowed-Writes dmarc_write posts refl dmarc_passes

resolve_name-IsInside_example :
    (text_eq (codes "_dmarc.mail.x.test") (codes "x.test") ≡ true)
    ⊎ (ends_with (b'.' ∷ codes "x.test") (codes "_dmarc.mail.x.test") ≡ true)
resolve_name-IsInside_example =
    resolve_name-IsInside dmarc_write (codes "_dmarc.Mail.x.test") (codes "TXT") (codes "x.test")
      (codes "_dmarc.mail.x.test") zone_read name_resolved

assert_hosted_dns_write-HostedWrite_example :
    (zone : Text) × (hosted_config.records_zone ≡ some zone)
    × (is_zone hosted_write.zone_name (norm zone) ≡ true)
    × HostedWrite hosted_write (norm zone) hosted_config.records_label
assert_hosted_dns_write-HostedWrite_example =
    assert_hosted_dns_write-HostedWrite hosted_write hosted_config is_post refl hosted_passes
