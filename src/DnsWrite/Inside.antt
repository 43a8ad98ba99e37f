-- ===== src/DnsWrite/Inside.antt =====
-- src/dns/write-policy.ts: a write never leaves its zone.
use mathlib.Core.List.{reverse-append}
use inbox_angel_worker.Common.{
  ◌≡◌, refl, true, false, not, ◌&&◌, ◌||◌, ◌⊎◌, inl, inr, List, [], ◌∷◌, ◌++◌, reverse, Option,
  none, some, arith, Bool-cases, ==_refl, ltb, length,
}
use inbox_angel_worker.Text.{Text, codes, text_eq, starts_with, ends_with, to_lower, is_empty}
use inbox_angel_worker.DnsWrite.{
  DnsRequest, HostedConfig, pass, resolve_name, place, zone_of, is_host, norm, to_upper, is_one_of,
  is_none, check_hosted, check_hosted_record, in_zone, is_zone, assert_hosted_dns_write,
}

starts_with-append : (p s : Text) → starts_with p (p ++ s) ≡ true
unfolding starts_with
starts_with-append [] s = refl
starts_with-append (c ∷ p) s = rw (==_refl c) (starts_with-append p s)

ends_with-append : (p s : Text) → ends_with p (s ++ p) ≡ true
unfolding ends_with
ends_with-append p s = rw (reverse-append s p) (starts_with-append (reverse p) (reverse s))

-- The zone itself, or below it.
abbrev pub IsInside : Text → Text → Type 0
IsInside zone n = (text_eq n zone ≡ true) ⊎ (ends_with (b'.' ∷ zone) n ≡ true)

place-IsInside :
    (w : DnsRequest) (m type zone n : Text) → place w m type (some zone) ≡ pass n → IsInside zone n
unfolding place
place-IsInside w m type zone n h = elim (Bool-cases (text_eq m zone)) [
  | inl e ↦ inl (ground arith)
  | inr e ↦ elim (Bool-cases (ends_with (b'.' ∷ zone) m)) [
    | inl f ↦ inr (ground arith)
    | inr f ↦ inr (ground (arith, ends_with-append (b'.' ∷ zone) m))
  ]
]

-- A name that is resolved in a zone is the zone or a name below it, whatever the request asks for.
pub resolve_name-IsInside :
    (w : DnsRequest) (name type zone n : Text)
    → zone_of w.zone_name ≡ some zone
    → resolve_name w name type ≡ pass n
    → (text_eq n zone ≡ true) ⊎ (ends_with (b'.' ∷ zone) n ≡ true)
unfolding resolve_name
resolve_name-IsInside w name type zone n z h =
    elim (Bool-cases (not (is_host (norm name)) || ltb 253 (length (norm name)))) [
      | inl e ↦ absurd (cc (rw e at h))
      | inr e ↦ place-IsInside w (norm name) type zone n (rw z at (rw e at h))
    ]

abbrev pub hosted_types : List Text
hosted_types = codes "TXT" ∷ codes "AAAA" ∷ codes "CNAME" ∷ []

-- What a write of the hosted records changes: a record of three types, strictly below the label of
-- the zone.
abbrev pub HostedWrite : DnsRequest → Text → Text → Type 0
HostedWrite w zone label =
    (type : Text) × (name : Text) × (w.type ≡ some type)
    × (w.name ≡ some name)
    × (is_one_of hosted_types (to_upper type) ≡ true)
    × (is_host (norm name) ≡ true)
    × (ends_with (b'.' ∷ (to_lower label ++ b'.' ∷ zone)) (norm name) ≡ true)

hosted_record_written :
    (w : DnsRequest) (zone label : Text) (type name : Option Text)
    → w.type ≡ type
    → w.name ≡ name
    → check_hosted_record zone label type name ≡ pass tt
    → HostedWrite w zone label
unfolding check_hosted_record
hosted_record_written w zone label none name a b h = absurd (cc h)
hosted_record_written w zone label (some type) none a b h = absurd (cc h)
hosted_record_written w zone label (some type) (some name) a b h =
    (type, name, a, b, ground arith, ground arith, ground arith)

hosted_written :
    (w : DnsRequest) (zone label : Text)
    → text_eq (to_upper w.method) (codes "DELETE") ≡ false
    → (is_none w.name && is_none w.type) ≡ false
    → check_hosted w zone label ≡ pass tt
    → HostedWrite w zone label
unfolding check_hosted
hosted_written w zone label not_delete named h =
    hosted_record_written w zone label w.type w.name refl refl (ground arith)

in_zone-written :
    (w : DnsRequest) (label : Text) (z : Option Text)
    → in_zone w label z ≡ pass tt
    → (zone : Text) × (z ≡ some zone)
      × (is_zone w.zone_name (norm zone) ≡ true)
      × (check_hosted w (norm zone) label ≡ pass tt)
unfolding in_zone
in_zone-written w label none h = absurd (cc h)
in_zone-written w label (some z) h = elim (Bool-cases (is_empty z)) [
  | inl e ↦ absurd (cc (rw e at h))
  | inr e ↦ elim (Bool-cases (is_zone w.zone_name (norm z))) [
    | inl f ↦ (z, refl, f, rw f at (rw e at h))
    | inr f ↦ absurd (cc (rw f at (rw e at h)))
  ]
]

-- With the token of the hosted records, a request that passes and that does not delete or change a
-- record by its id alone goes to the configured zone and writes a TXT, AAAA or CNAME record at a host
-- strictly below the label of that zone.
pub assert_hosted_dns_write-HostedWrite :
    (w : DnsRequest) (cfg : HostedConfig)
    → text_eq (to_upper w.method) (codes "DELETE") ≡ false
    → (is_none w.name && is_none w.type) ≡ false
    → assert_hosted_dns_write w cfg ≡ pass tt
    → (zone : Text) × (cfg.records_zone ≡ some zone)
      × (is_zone w.zone_name (norm zone) ≡ true)
      × HostedWrite w (norm zone) cfg.records_label
unfolding assert_hosted_dns_write
assert_hosted_dns_write-HostedWrite w cfg not_delete named h =
    let (zone, at, same, checked) = in_zone-written w cfg.records_label cfg.records_zone h in
    (zone, at, same, hosted_written w (norm zone) cfg.records_label not_delete named checked)
