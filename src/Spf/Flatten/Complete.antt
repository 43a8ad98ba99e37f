-- ===== src/Spf/Flatten/Complete.antt =====
-- packages/dns-checks/src/spf.ts: a flattening without errors covers every record that the includes and
-- redirects lead to.
use mathlib.Core.Path.{subst}
use mathlib.Core.List.{Memᴰ}
use inbox_angel_worker.Common.{
  ℕ, zero, suc, ◌≡◌, sym, refl, ◌∙◌, Bool, true, List, [], ◌∷◌, ◌++◌, Option, none, some, some_of,
  All, ap, some_inj,
}
use inbox_angel_worker.Text.{Text}
use inbox_angel_worker.Dmarc.{normalize_name}
use inbox_angel_worker.Spf.{SpfTerm, parse_spf_terms, is_all}
use inbox_angel_worker.Spf.Walk.{
  Resolver, TxtFetch, one_record, no_record, many_records, fetch_failed, fetch_spf_txt, target_of,
  dns_error, multiple_records,
}
use inbox_angel_worker.Spf.Flatten.{
  Visit, Collected, visit, visit_fetch, add_error, missing_record, collect_ips, nothing, answer_of,
}
use inbox_angel_worker.Spf.Flatten.Grows.{Grows, visit-IsGrowing, not_empty}
use inbox_angel_worker.Spf.Flatten.Covers.{
  Leads, stays, steps, follows_at, HasTerm, IsCovered, Result, all_mem, HasTerm-Grows,
}
use inbox_angel_worker.Spf.Flatten.Terms.{Handled, terms-Handled}

term_All :
    (v : Visit) (root d : Text) (path : List Text) (has_all : Bool) (out : Collected)
    (ts : List SpfTerm)
    → All (Handled v root d path has_all out) ts
    → All (HasTerm root d has_all out) ts
term_All v root d path has_all out [] h = tt
term_All v root d path has_all out (t ∷ ts) ((h, _), hs) =
    (h, term_All v root d path has_all out ts hs)

kept_All :
    (root d : Text) (has_all : Bool) (a b : Collected) (ts : List SpfTerm)
    → Grows a b
    → All (HasTerm root d has_all a) ts
    → All (HasTerm root d has_all b) ts
kept_All root d has_all a b [] g h = tt
kept_All root d has_all a b (t ∷ ts) g (h, hs) =
    (HasTerm-Grows root d has_all a b t g h, kept_All root d has_all a b ts g hs)

missing_is_error :
    (d p : Text) (ps : List Text) (q : Text) (a : Collected)
    → (missing_record d (p ∷ ps ++ q ∷ []) a).errors ≡ []
    → ⊥
missing_is_error d p [] q a h = not_empty a.errors _ h
missing_is_error d p (_ ∷ _) q a h = not_empty a.errors _ h

errors_of :
    (o : Option Text) (a : Collected) (x : Result)
    → some (o, a) ≡ some x
    → x.1.errors ≡ []
    → a.errors ≡ []
errors_of o a x e clean =
    subst (λ (y : Collected). y.errors ≡ []) (sym (ap (λ p. p.1) (some_inj e))) clean

IsCovered-kept :
    (r : Resolver) (root e : Text) (a b : Collected)
    → Grows a b
    → IsCovered r root e a
    → IsCovered r root e b
IsCovered-kept r root e a b g (raw, k, all) =
    (raw, k, kept_All root e (some_of is_all (parse_spf_terms raw)) a b (parse_spf_terms raw) g all)

one_inj : {s t : Text} → one_record s ≡ one_record t → s ≡ t
one_inj h = cc

covers_from :
    (v : Visit) (path : List Text) (r : Resolver) (out : Collected) (root d e raw : Text)
    → out.errors ≡ []
    → fetch_spf_txt r d ≡ one_record raw
    → All (Handled v root d path (some_of is_all (parse_spf_terms raw)) out) (parse_spf_terms raw)
    → ((target : Text) (policy : Bool) (b : Collected) (y : Result)
        → v target (path ++ target ∷ []) policy b ≡ some y
        → y.1.errors ≡ []
        → Leads r target e
        → IsCovered r root e y.1)
    → Leads r d e
    → IsCovered r root e out
covers_from v path r out root d _ raw clean at handled below (stays _) = (
  raw,
  at,
  term_All v root d path (some_of is_all (parse_spf_terms raw)) out (parse_spf_terms raw) handled,
)
covers_from v path r out root d e raw clean at handled below (steps _ _ raw' t at' mem follows on) =
    let same : raw' ≡ raw = one_inj (sym at' ∙ at) in
    let (policy, b, y, walked, g) =
      (all_mem (Handled v root d path (some_of is_all (parse_spf_terms raw)) out)
          (parse_spf_terms raw) t handled (subst (λ s. Memᴰ t (parse_spf_terms s)) same mem)).1
        (subst (λ s. follows_at s t ≡ true) same follows) in
    IsCovered-kept r root e y.1 out g
      (below (target_of t.value) policy b y walked (g.clean clean) on)

-- A walk without errors covers every record that the name leads to.
visit_covers :
    (fuel : ℕ) (r : Resolver) (root d p : Text) (ps : List Text) (policy : Bool) (a : Collected)
    (x : Result)
    → visit fuel r root d (p ∷ ps) policy a ≡ some x
    → x.1.errors ≡ []
    → (fetch_spf_txt r d ≡ no_record → (missing_record d (p ∷ ps) a).errors ≡ [] → ⊥)
    → (e : Text) → Leads r d e
    → IsCovered r root e x.1
unfolding visit
visit_covers zero r root d p ps policy a x h clean found e leads = absurd (cc h)
visit_covers (suc fuel) r root d p ps policy a x h clean found e leads =
    by_fetch (fetch_spf_txt r d) refl h (λ target policy' b y at no_error leads'.
      visit_covers fuel r root target p (ps ++ target ∷ []) policy' b y at no_error
        (λ _. missing_is_error target p ps target b) e leads')
  where
    by_fetch :
        (f : TxtFetch)
        → fetch_spf_txt r d ≡ f
        → visit_fetch
            (λ d' path' policy' out'. visit fuel r root d' path' policy' out')
            root
            d
            (p ∷ ps)
            policy
            f
            a
          ≡ some x
        → ((target : Text) (policy' : Bool) (b : Collected) (y : Result)
            → visit fuel r root target (p ∷ ps ++ target ∷ []) policy' b ≡ some y
            → y.1.errors ≡ []
            → Leads r target e
            → IsCovered r root e y.1)
        → IsCovered r root e x.1
    by_fetch fetch_failed k j below = absurd (
        not_empty a.errors (dns_error, d)
          (errors_of none (add_error dns_error d a) x (unfold visit_fetch in j) clean))
    by_fetch no_record k j below =
        absurd
          (found k (errors_of none (missing_record d (p ∷ ps) a) x (unfold visit_fetch in j) clean))
    by_fetch (many_records rs) k j below = absurd (
        not_empty a.errors (multiple_records, d)
          (errors_of none (add_error multiple_records d a) x (unfold visit_fetch in j) clean))
    by_fetch (one_record raw) k j below =
        covers_from (λ d' path' policy' out'. visit fuel r root d' path' policy' out') (p ∷ ps) r
          x.1 root d e raw clean k
          (terms-Handled (λ d' path' policy' out'. visit fuel r root d' path' policy' out')
            (visit-IsGrowing fuel r root) root d (p ∷ ps) policy
            (some_of is_all (parse_spf_terms raw)) (parse_spf_terms raw) none a x
            (unfold visit_fetch in j) clean)
          below leads

-- A flattening that ends without errors has, for every name that includes and redirects lead to from the
-- domain, exactly one record there, and of that record, up to case where there is no macro: the entry of
-- every ip4 and ip6 term; the text of every a, mx, ptr and exists term, one without a value with the name
-- of the included record put in; and the text of every include, and of every redirect that counts, that
-- is not followed.
pub collect_ips_complete :
    (fuel : ℕ) (domain : Text) (r : Resolver) (raw all : Text) (out : Collected)
    → fetch_spf_txt r (normalize_name domain) ≡ one_record raw
    → collect_ips fuel domain r ≡ some (all, out)
    → out.errors ≡ []
    → (e : Text) → Leads r (normalize_name domain) e
    → IsCovered r (normalize_name domain) e out
unfolding collect_ips
collect_ips_complete fuel domain r raw all out has h clean e leads =
    from
      (visit fuel r (normalize_name domain) (normalize_name domain) (normalize_name domain ∷ [])
        true nothing)
      refl h
  where
    from :
        (o : Option Result)
        → visit fuel r
            (normalize_name domain)
            (normalize_name domain)
            (normalize_name domain ∷ [])
            true
            nothing
          ≡ o
        → answer_of o ≡ some (all, out)
        → IsCovered r (normalize_name domain) e out
    from none k j = absurd (cc j)
    from (some (token, b)) k j =
        let same : b ≡ out = ap (λ p. p.1) (some_inj j) in
        subst (IsCovered r (normalize_name domain) e) same (
          visit_covers fuel r (normalize_name domain) (normalize_name domain)
            (normalize_name domain) [] true nothing (token, b) k
            (subst (λ (c : Collected). c.errors ≡ []) (sym same) clean)
            (λ n _. absurd (cc (n, has))) e leads)
