-- ===== src/Spf/Flatten/Grows.antt =====
-- packages/dns-checks/src/spf.ts: what `collectIps` has found, it keeps.
use mathlib.Core.Path.{subst}
use inbox_angel_worker.Common.{
  ℕ, zero, suc, ◌≡◌, refl, Bool, true, false, List, [], ◌∷◌, ◌++◌, Option, none, some, arith,
  if◌then◌else◌, some_of, Bool-cases, inl, inr, ap, some_inj,
}
use inbox_angel_worker.Text.{Text, codes, text_eq, to_lower}
use inbox_angel_worker.Spf.{SpfTerm, parse_spf_terms, is_all, is_mechanism}
use inbox_angel_worker.Spf.Walk.{
  Resolver, SpfIssueCode, TxtFetch, one_record, no_record, many_records, fetch_failed,
  fetch_spf_txt, target_of, has_macro,
}
use inbox_angel_worker.Spf.Flatten.{
  Visit, Collected, visit, visit_fetch, visit_terms, visit_term, visit_mechanism, visit_include,
  visit_redirect, and_then, with_token, is_unfollowed, is_ip, is_kept, is_followed_redirect,
  keep_own, keep_raw, has_ip, add_error, add_ip, ip_entry, missing_record,
}

abbrev pub has_extra : Text → Collected → Bool
has_extra k out = some_of (text_eq k) out.extra

-- No error is lost, no address and no term that was kept.
pub record Grows (a b : Collected) : Type 0 where
  pub clean : b.errors ≡ [] → a.errors ≡ []
  pub kept : (k : Text) → has_ip k a ≡ true → has_ip k b ≡ true
  pub extra : (k : Text) → has_extra k a ≡ true → has_extra k b ≡ true

pub Grows-refl : (a : Collected) → Grows a a
Grows-refl a = record { clean = λ e. e; kept = λ k h. h; extra = λ k h. h }

pub Grows-trans : {a b c : Collected} → Grows a b → Grows b c → Grows a c
Grows-trans u v = record {
  clean = λ e. u.clean (v.clean e);
  kept = λ k h. v.kept k (u.kept k h);
  extra = λ k h. v.extra k (u.extra k h);
}

has_append :
    (p : Text → Bool) (es : List Text) (e : Text)
    → some_of p es ≡ true
    → some_of p (es ++ e ∷ []) ≡ true
has_append p [] e h = absurd (cc h)
has_append p (x ∷ xs) e h = ground (arith, has_append p xs e)

pub not_empty : (xs : List (SpfIssueCode × Text)) (x : SpfIssueCode × Text) → xs ++ x ∷ [] ≡ [] → ⊥
not_empty [] x h = absurd (cc h)
not_empty (y ∷ ys) x h = absurd (cc h)

pub add_error-Grows :
    (code : SpfIssueCode) (d : Text) (a : Collected) → Grows a (add_error code d a)
add_error-Grows code d a = record {
  clean = λ e. absurd (not_empty a.errors (code, d) e);
  kept = λ k h. h;
  extra = λ k h. h;
}

pub add_ip-Grows : (entry : Text) (a : Collected) → Grows a (add_ip entry a)
unfolding add_ip
add_ip-Grows entry a = elim (Bool-cases (has_ip (to_lower entry) a)) [
  | inl e ↦ rw e (Grows-refl a)
  | inr e ↦ rw e (record {
    clean = λ c. c;
    kept = λ k h. has_append (λ x. text_eq (to_lower x) k) a.ips entry h;
    extra = λ k h. h;
  })
]

pub keep_raw-Grows : (raw : Text) (a : Collected) → Grows a (keep_raw raw a)
unfolding keep_raw
keep_raw-Grows raw a = by_case _ _
  where
    by_case :
        (b : Bool) (key : Text)
        → Grows a (if b then a else record a { extra = a.extra ++ key ∷ [] })
    by_case true key = Grows-refl a
    by_case false key = record {
      clean = λ e. e;
      kept = λ k h. h;
      extra = λ k h. has_append (text_eq k) a.extra key h;
    }

keep_own-Grows :
    (root d : Text) (t : SpfTerm) (v : Option Text) (a : Collected)
    → Grows a (keep_own root d t v a)
keep_own-Grows root d t none a = keep_raw-Grows _ a
keep_own-Grows root d t (some v) a = keep_raw-Grows t.raw a

-- What a walk answers, where it answers.
abbrev pub GrowsTo : Collected → Option (Option Text × Collected) → Type 0
GrowsTo a o = (x : Option Text × Collected) → o ≡ some x → Grows a x.1

abbrev pub IsGrowing : Visit → Type 0
IsGrowing v =
    (d : Text) (path : List Text) (policy : Bool) (a : Collected) → GrowsTo a (v d path policy a)

choose :
    (a : Collected) (b : Bool) (x y : Option (Option Text × Collected))
    → GrowsTo a x
    → GrowsTo a y
    → GrowsTo a (if b then x else y)
choose a true x y gx gy = gx
choose a false x y gx gy = gy

just : (a b : Collected) (token : Option Text) → Grows a b → GrowsTo a (some (token, b))
just a b token g x e = subst (Grows a) (ap (λ p. p.1) (some_inj e)) g

with_token-Grows :
    (a : Collected) (token : Option Text) (o : Option (Option Text × Collected))
    → GrowsTo a o
    → GrowsTo a (with_token token o)
with_token-Grows a token none g x e = absurd (cc e)
with_token-Grows a token (some (t, b)) g x e =
    subst (Grows a) (ap (λ p. p.1) (some_inj e)) (g (t, b) refl)

module _ (v : Visit) (g : IsGrowing v) (root d : Text) (path : List Text)
    (policy has_all : Bool) where
  pub visit_term-Grows :
      (t : SpfTerm) (token : Option Text) (a : Collected)
      → GrowsTo a (visit_term v root d path policy has_all t token a)
  unfolding visit_term visit_mechanism visit_include visit_redirect
  visit_term-Grows t token a =
      choose a (is_mechanism t.kind) _ _
        (choose a (is_ip t) _ _ (just a _ token (add_ip-Grows (ip_entry t) a)) (
          choose a (text_eq t.name (codes "include")) _ _
            (choose a (is_unfollowed t) _ _ (just a _ token (keep_raw-Grows t.raw a)) (
              choose a (some_of (text_eq (target_of t.value)) path) _ _
                (just a _ token (add_error-Grows _ d a))
                (with_token-Grows a token _ (g (target_of t.value) _ false a))))
            (choose a (text_eq t.name (codes "all")) _ _ (just a a _ (Grows-refl a)) (
              choose a (is_kept t) _ _ (just a _ token (keep_own-Grows root d t t.value a))
                (just a a token (Grows-refl a))))))
        (choose a (is_followed_redirect has_all t) _ _
          (choose a (has_macro (target_of t.value)) _ _ (just a _ token (keep_raw-Grows t.raw a)) (
            choose a (some_of (text_eq (target_of t.value)) path) _ _
              (just a _ token (add_error-Grows _ d a)) (g (target_of t.value) _ policy a)))
          (just a a token (Grows-refl a)))

  pub visit_terms-Grows :
      (ts : List SpfTerm) (token : Option Text) (a : Collected)
      → GrowsTo a (visit_terms v root d path policy has_all ts token a)
  unfolding visit_terms
  visit_terms-Grows [] token a x e = just a a token (Grows-refl a) x e
  visit_terms-Grows (t ∷ ts) token a x e =
      from (visit_term v root d path policy has_all t token a) refl e
        (λ token' b. visit_terms-Grows ts token' b)
    where
      from :
          (o : Option (Option Text × Collected))
          → visit_term v root d path policy has_all t token a ≡ o
          → and_then o (λ token' b. visit_terms v root d path policy has_all ts token' b) ≡ some x
          → ((token' : Option Text) (b : Collected)
              → GrowsTo b (visit_terms v root d path policy has_all ts token' b))
          → Grows a x.1
      from none k h rest = absurd (cc h)
      from (some (token', b)) k h rest =
          Grows-trans (visit_term-Grows t token a (token', b) k) (rest token' b x h)

missing_record-Grows :
    (d : Text) (path : List Text) (a : Collected) → Grows a (missing_record d path a)
missing_record-Grows d [] a = Grows-refl a
missing_record-Grows d (_ ∷ []) a = Grows-refl a
missing_record-Grows d (_ ∷ _ ∷ _) a = add_error-Grows _ d a

pub visit-IsGrowing :
    (fuel : ℕ) (r : Resolver) (root : Text)
    → IsGrowing (λ d path policy out. visit fuel r root d path policy out)
unfolding visit visit_fetch
visit-IsGrowing zero r root d path policy a x e = absurd (cc e)
visit-IsGrowing (suc fuel) r root d path policy a x e =
    by_fetch (fetch_spf_txt r d) (visit-IsGrowing fuel r root) x e
  where
    by_fetch :
        (f : TxtFetch)
        → IsGrowing (λ d' path' policy' out'. visit fuel r root d' path' policy' out')
        → GrowsTo a (
            visit_fetch
              (λ d' path' policy' out'. visit fuel r root d' path' policy' out')
              root
              d
              path
              policy
              f
              a)
    by_fetch fetch_failed g = just a _ none (add_error-Grows _ d a)
    by_fetch no_record g = just a _ none (missing_record-Grows d path a)
    by_fetch (many_records rs) g = just a _ none (add_error-Grows _ d a)
    by_fetch (one_record raw) g =
        visit_terms-Grows _ g root d path policy (some_of is_all (parse_spf_terms raw))
          (parse_spf_terms raw) none a
