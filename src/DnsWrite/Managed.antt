-- ===== src/DnsWrite/Managed.antt =====
-- src/dns/write-policy.ts: every record that may be written is one of the managed kinds.
use mathlib.Core.Option
use mathlib.Core.Option.{get_or}
use inbox_angel_worker.Common.{
  ◌≡◌, refl, Bool, true, false, not, ◌&&◌, inl, inr, List, [], ◌∷◌, Option, none, some, some_of,
  arith, Bool-cases,
}
use inbox_angel_worker.Text.{Text, codes, text_eq, starts_with}
use inbox_angel_worker.DnsWrite.{
  DnsRequest, Checked, pass, refuse, is_selfhost, is_spf, is_dmarc1, is_managed_txt, is_report_auth,
  is_target, is_mx_target, is_mx, norm, bare, has_underscore, check_spf, check_txt, check_cname,
  check_mx, check_type, check_named, check_record, resolve_name, to_upper, is_none,
  assert_dns_write_allowed, is_one_of,
}

-- Where an SPF record may stand: at a given apex, or else at a name that looks like a domain.
abbrev pub SpfPlace : Option (List Text) → Text → Type 0
SpfPlace (some apexes) n = some_of (λ a. text_eq (norm a) n) apexes ≡ true
SpfPlace none n = (has_underscore n ≡ false) × (starts_with (codes "mta-sts.") n ≡ false)

-- The records that the product writes.
pub data IsManaged (w : DnsRequest) (type n c : Text) : Type 0 where
  spf :
      text_eq type (codes "TXT") ≡ true
      → is_spf c ≡ true
      → SpfPlace w.allowed_apexes n
      → IsManaged w type n c
  txt : text_eq type (codes "TXT") ≡ true → is_managed_txt n ≡ true → IsManaged w type n c
  report :
      text_eq type (codes "TXT") ≡ true
      → is_report_auth n ≡ true
      → is_dmarc1 c ≡ true
      → IsManaged w type n c
  policy_host :
      text_eq type (codes "CNAME") ≡ true
      → starts_with (codes "mta-sts.") n ≡ true
      → is_target w.cname_targets c ≡ true
      → IsManaged w type n c
  email_routing :
      is_mx type ≡ true
      → is_selfhost w.mode ≡ true
      → text_eq n (norm (get_or w.zone_name [])) ≡ false
      → is_mx_target (norm c) ≡ true
      → IsManaged w type n c

-- A record of which the content is given and that is managed.
abbrev pub Written : DnsRequest → Text → Text → Option Text → Type 0
Written w type n content = (c : Text) × (content ≡ some c) × IsManaged w type n c

spf_place :
    (w : DnsRequest) (n : Text) (apexes : Option (List Text))
    → check_spf w n apexes ≡ pass tt
    → SpfPlace apexes n
unfolding check_spf
spf_place w n none h = ground arith
spf_place w n (some apexes) h = ground arith

module _ (w : DnsRequest) (type n : Text) where
  txt-Written :
      (content : Option Text)
      → text_eq type (codes "TXT") ≡ true
      → check_txt w n content ≡ pass tt
      → Written w type n content
  unfolding check_txt
  txt-Written none t h = absurd (cc h)
  txt-Written (some c) t h = elim (Bool-cases (is_spf c)) [
    | inl e ↦ (c, refl, spf t e (spf_place w n w.allowed_apexes (rw e at h)))
    | inr e ↦ elim (Bool-cases (is_managed_txt n)) [
      | inl f ↦ (c, refl, txt t f)
      | inr f ↦ elim (Bool-cases (is_report_auth n && is_dmarc1 c)) [
        | inl g ↦ (c, refl, ground (arith, report t))
        | inr g ↦ absurd (cc (rw g at (rw f at (rw e at h))))
      ]
    ]
  ]

  cname-Written :
      (content : Option Text)
      → text_eq type (codes "CNAME") ≡ true
      → check_cname w n content ≡ pass tt
      → Written w type n content
  unfolding check_cname
  cname-Written none t h = absurd (ground arith)
  cname-Written (some c) t h = (c, refl, policy_host t (ground arith) (ground arith))

  mx-Written :
      (content : Option Text)
      → is_mx type ≡ true
      → check_mx w n content ≡ pass tt
      → Written w type n content
  unfolding check_mx
  mx-Written none t h = absurd (ground arith)
  mx-Written (some c) t h = (c, refl, email_routing t (ground arith) (ground arith) (ground arith))

  type-Written :
      (content : Option Text) → check_type w type n content ≡ pass tt → Written w type n content
  unfolding check_type
  type-Written content h = elim (Bool-cases (text_eq type (codes "TXT"))) [
    | inl e ↦ txt-Written content e (rw e at h)
    | inr e ↦ elim (Bool-cases (text_eq type (codes "CNAME"))) [
      | inl f ↦ cname-Written content f (rw f at (rw e at h))
      | inr f ↦ elim (Bool-cases (is_mx type)) [
        | inl g ↦ mx-Written content g (rw g at (rw f at (rw e at h)))
        | inr g ↦ absurd (cc (rw g at (rw f at (rw e at h))))
      ]
    ]
  ]

-- What a request writes: its type and name, the name that it resolves to, and its content.
abbrev pub Writes : DnsRequest → Type 0
Writes w =
    (type : Text) × (name : Text) × (n : Text) × (c : Text) × (w.type ≡ some type)
    × (w.name ≡ some name)
    × (Option.map bare w.content ≡ some c)
    × (resolve_name w name (to_upper type) ≡ pass n)
    × IsManaged w (to_upper type) n c

named-Written :
    (w : DnsRequest) (is_patch : Bool) (type : Text) (o : Checked Text)
    → check_named w is_patch type o ≡ pass tt
    → (n : Text) × (o ≡ pass n) × Written w type n (Option.map bare w.content)
unfolding check_named
named-Written w is_patch type (refuse r) h = absurd (cc h)
named-Written w is_patch type (pass n) h = elim (Bool-cases (is_none w.content && not is_patch)) [
  | inl e ↦ absurd (cc (rw e at h))
  | inr e ↦ (n, refl, type-Written w type n (Option.map bare w.content) (rw e at h))
]

record-Writes :
    (w : DnsRequest) (is_patch : Bool) (type name : Option Text)
    → w.type ≡ type
    → w.name ≡ name
    → check_record w is_patch type name ≡ pass tt
    → Writes w
unfolding check_record
record-Writes w is_patch none name a b h = absurd (cc h)
record-Writes w is_patch (some type) none a b h = absurd (cc h)
record-Writes w is_patch (some type) (some name) a b h =
    let (n, at, (c, given, managed)) = named-Written w is_patch (to_upper type) _ h in
    (type, name, n, c, a, b, given, at, managed)

-- A request that creates, replaces, renames or retypes a record passes only if the record is one of
-- the managed kinds at the name that it resolves to: an SPF record at an allowed place, a DMARC,
-- MTA-STS, TLS reporting or report authorization text, the CNAME of the policy host, or, on a self-host
-- only, an MX record of Email Routing at a name other than the zone.
pub assert_dns_write_allowed-Writes :
    (w : DnsRequest)
    → is_one_of (codes "GET" ∷ codes "HEAD" ∷ codes "DELETE" ∷ []) (to_upper w.method) ≡ false
    → (is_none w.name && is_none w.type) ≡ false
    → assert_dns_write_allowed w ≡ pass tt
    → Writes w
unfolding assert_dns_write_allowed
assert_dns_write_allowed-Writes w reads content_only h =
    elim (Bool-cases (text_eq (to_upper w.method) (codes "PATCH"))) [
      | inl e ↦ record-Writes w true w.type w.name refl refl (ground arith)
      | inr e ↦ record-Writes w false w.type w.name refl refl (ground arith)
    ]
