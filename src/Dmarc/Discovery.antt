-- ===== src/Dmarc/Discovery.antt =====
-- packages/dns-checks/src/dmarc.ts, `lookupDmarc`: what the answer of a lookup says of the DNS.
use inbox_angel_worker.Common.{
  ◌≡◌, ◌≢◌, refl, ap, Bool, ◌↔◌, List, [], ◌∷◌, ◌++◌, Option, none, some, some_inj, Option-cases,
  inl, inr, keep, All,
}
use inbox_angel_worker.Text.{Text, trim}
use inbox_angel_worker.Dmarc.{
  DmarcLookup, found, absent, TxtAnswer, ok, failed, at_name, ask_name, ask_names, lookup_dmarc,
  names_to_ask, lookup_base, normalize_name, dmarc_name, is_dmarc_record, parse_dmarc_record,
}

-- The resolver has answered that a name has no DMARC record.
abbrev pub IsSilent : (Text → TxtAnswer) → Text × Bool → Type 0
IsSilent txt (n, is_org) =
    (records : List Text) × (txt (dmarc_name n) ≡ ok records) × (keep is_dmarc_record records ≡ [])

-- The resolver has answered that a name has one DMARC record.
abbrev pub IsSingle : (Text → TxtAnswer) → Text → Text → Type 0
IsSingle txt n r =
    (records : List Text) × (txt (dmarc_name n) ≡ ok records)
    × (keep is_dmarc_record records ≡ r ∷ [])

at_name-silent :
    (base : DmarcLookup) (n : Text) (is_org : Bool) (rs : List Text)
    → at_name base n is_org rs ≡ none
    → rs ≡ []
unfolding at_name
at_name-silent base n is_org [] h = refl
at_name-silent base n is_org (r ∷ []) h = absurd (cc h)
at_name-silent base n is_org (r ∷ s ∷ rs) h = absurd (cc h)

ask_name-IsSilent :
    (base : DmarcLookup) (n : Text) (is_org : Bool) (txt : Text → TxtAnswer) (a : TxtAnswer)
    → txt (dmarc_name n) ≡ a
    → ask_name base n is_org a ≡ none
    → IsSilent txt (n, is_org)
unfolding ask_name
ask_name-IsSilent base n is_org txt (failed e) at h = absurd (cc h)
ask_name-IsSilent base n is_org txt (ok rs) at h =
    (rs, at, at_name-silent base n is_org (keep is_dmarc_record rs) h)

-- What an answer says that ends the search.
abbrev Says : DmarcLookup → Text → Bool → TxtAnswer → DmarcLookup → Type 0
Says base n is_org a l =
    (l.status ≢ absent)
    × (l.status ≡ found
        → (rs : List Text) × (r : Text) × (a ≡ ok rs)
          × (keep is_dmarc_record rs ≡ r ∷ [])
          × (l.entry ≡ some (parse_dmarc_record (trim r)))
          × (l.found_at ≡ some (dmarc_name n))
          × (l.inherited ≡ is_org))

at_name-Says :
    (base : DmarcLookup) (n : Text) (is_org : Bool) (rs ms : List Text) (l : DmarcLookup)
    → keep is_dmarc_record rs ≡ ms
    → at_name base n is_org ms ≡ some l
    → Says base n is_org (ok rs) l
unfolding at_name
at_name-Says base n is_org rs [] l kept h = absurd (cc h)
at_name-Says base n is_org rs (r ∷ []) l kept h =
    rw (← some_inj h) ((λ e. absurd (cc e)), (λ _. (rs, r, refl, kept, refl, refl, refl)))
at_name-Says base n is_org rs (r ∷ s ∷ ms) l kept h =
    rw (← some_inj h) ((λ e. absurd (cc e)), (λ e. absurd (cc e)))

ask_name-Says :
    (base : DmarcLookup) (n : Text) (is_org : Bool) (a : TxtAnswer) (l : DmarcLookup)
    → ask_name base n is_org a ≡ some l
    → Says base n is_org a l
unfolding ask_name
ask_name-Says base n is_org (failed e) l h =
    rw (← some_inj h) ((λ k. absurd (cc k)), (λ k. absurd (cc k)))
ask_name-Says base n is_org (ok rs) l h =
    at_name-Says base n is_org rs (keep is_dmarc_record rs) l refl h

-- A record that is found stands alone at a name, and the names asked before are silent.
abbrev pub FoundAt : (Text → TxtAnswer) → List (Text × Bool) → DmarcLookup → Type 0
FoundAt txt ns l =
    (before after : List (Text × Bool)) × (n : Text) × (is_org : Bool) × (r : Text) × (ns
      ≡ before ++ (n, is_org) ∷ after)
    × All (IsSilent txt) before
    × IsSingle txt n r
    × (l.entry ≡ some (parse_dmarc_record (trim r)))
    × (l.found_at ≡ some (dmarc_name n))
    × (l.inherited ≡ is_org)

module _ (txt : Text → TxtAnswer) (base : DmarcLookup) where
  All-IsSilent :
      (ns : List (Text × Bool))
      → base.status ≡ absent
      → ((ask_names txt base ns).status ≡ absent) ↔ All (IsSilent txt) ns
  unfolding ask_names
  All-IsSilent [] b = ((λ _. tt), (λ _. b))
  All-IsSilent ((n, is_org) ∷ ns) b =
      elim (Option-cases (ask_name base n is_org (txt (dmarc_name n)))) [
        | inl e ↦ rw e (
          (λ h. (ask_name-IsSilent base n is_org txt _ refl e, (All-IsSilent ns b).0 h)),
          (λ (_, hs). (All-IsSilent ns b).1 hs),
        )
        | inr (l, e) ↦
            let says = ask_name-Says base n is_org (txt (dmarc_name n)) l e in
            rw e ((λ h. absurd (says.0 h)), (λ (s, _). absurd (cc (silent_none n is_org s, e))))
      ]
    where
      silent_none :
          (n : Text) (is_org : Bool)
          → IsSilent txt (n, is_org)
          → ask_name base n is_org (txt (dmarc_name n)) ≡ none
      silent_none n is_org (rs, at, none_kept) =
          unfold ask_name at_name in rw (at, ask_name, none_kept, at_name) refl

  found_lem :
      (ns : List (Text × Bool))
      → base.status ≡ absent
      → (ask_names txt base ns).status ≡ found
      → FoundAt txt ns (ask_names txt base ns)
  unfolding ask_names
  found_lem [] b h = absurd (cc (b, h))
  found_lem ((n, is_org) ∷ ns) b h =
      elim (Option-cases (ask_name base n is_org (txt (dmarc_name n)))) [
        | inl e ↦
            let (before, after, m, flag, r, split, quiet, single, entry, name, inh) =
              found_lem ns b (rw e at h) in
            rw e (
              (n, is_org) ∷ before,
              after,
              m,
              flag,
              r,
              ap ((n, is_org) ∷◌) split,
              (ask_name-IsSilent base n is_org txt _ refl e, quiet),
              single,
              entry,
              name,
              inh,
            )
        | inr (l, e) ↦
            let says = ask_name-Says base n is_org (txt (dmarc_name n)) l e in
            let (rs, r, at, kept, entry, name, inh) = says.1 (rw e at h) in
            rw e ([], ns, n, is_org, r, refl, tt, (rs, at, kept), entry, name, inh)
      ]

-- The lookup says that there is no record exactly when the resolver has answered for every name that
-- it asks, the domain's and then the organizational domain's, that there is no DMARC record: a failure
-- of the DNS is never taken for a missing record.
pub lookup_dmarc-absent :
    (organizational_domain : Text → Option Text) (txt : Text → TxtAnswer) (domain : Text)
    → ((lookup_dmarc organizational_domain txt domain).status ≡ absent)
      ↔ All
          (IsSilent txt)
          (names_to_ask (normalize_name domain) (organizational_domain (normalize_name domain)))
unfolding lookup_dmarc
lookup_dmarc-absent organizational_domain txt domain =
    let name = normalize_name domain in
    let org = organizational_domain name in
    All-IsSilent txt (lookup_base name org) (names_to_ask name org) refl

-- A record that the lookup finds stands alone at one of the names that it asks, every name asked
-- before has no DMARC record, and the lookup says whether the name is the organizational domain's.
pub lookup_dmarc-found :
    (organizational_domain : Text → Option Text) (txt : Text → TxtAnswer) (domain : Text)
    → (lookup_dmarc organizational_domain txt domain).status ≡ found
    → FoundAt txt
        (names_to_ask (normalize_name domain) (organizational_domain (normalize_name domain)))
        (lookup_dmarc organizational_domain txt domain)
unfolding lookup_dmarc
lookup_dmarc-found organizational_domain txt domain h =
    let name = normalize_name domain in
    let org = organizational_domain name in
    found_lem txt (lookup_base name org) (names_to_ask name org) refl h
