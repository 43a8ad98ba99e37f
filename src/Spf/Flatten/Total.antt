-- ===== src/Spf/Flatten/Total.antt =====
-- packages/dns-checks/src/spf.ts: `collectIps` ends where finitely many names can be reached.
use mathlib.Core.Path.{subst}
use inbox_angel_worker.Common.{
  ℕ, zero, suc, ◌≤◌, ◌<◌, ◌≡◌, sym, refl, Bool, true, false, not, List, [], ◌∷◌, ◌++◌, Option, none,
  some, arith, if◌then◌else◌, some_of, All, count, length, Bool-cases, inl, inr,
}
use inbox_angel_worker.Text.{Text, codes, text_eq}
use inbox_angel_worker.Text.Equal.{text_eq_iff, text_eq_refl}
use inbox_angel_worker.Dmarc.{normalize_name}
use inbox_angel_worker.Spf.{SpfTerm, parse_spf_terms, is_mechanism}
use inbox_angel_worker.Spf.Walk.{
  Resolver, TxtFetch, one_record, no_record, many_records, fetch_failed, fetch_spf_txt, target_of,
  has_macro, is_reference,
}
use inbox_angel_worker.Spf.Flatten.{
  Visit, Collected, visit, visit_fetch, visit_terms, visit_term, visit_mechanism, visit_include,
  visit_redirect, is_unfollowed, is_ip, is_kept, is_followed_redirect, collect_ips, nothing,
}

abbrev pub terms_at : TxtFetch → List SpfTerm
terms_at (one_record raw) = parse_spf_terms raw
terms_at _ = []

abbrev pub is_in : List Text → Text → Bool
is_in names d = some_of (text_eq d) names

-- Following an include or a redirect of a record at one of the names leads to one of the names.
abbrev pub IsClosed : Resolver → List Text → Type 0
IsClosed r names =
    All
      (λ d.
        All (λ t. is_reference t ≡ true → is_in names (target_of t.value) ≡ true)
          (terms_at (fetch_spf_txt r d)))
      names

abbrev IsDone : Option (Option Text × Collected) → Type 0
IsDone o = (x : Option Text × Collected) × (o ≡ some x)

-- The names that the path has not met.
abbrev remaining : List Text → List Text → ℕ
remaining path names = count (λ n. not (is_in path n)) names

in_path :
    (path : List Text) (n target : Text)
    → is_in path n ≡ true
    → is_in (path ++ target ∷ []) n ≡ true
in_path [] n target h = absurd (cc h)
in_path (p ∷ ps) n target h = ground (arith, in_path ps n target)

path_end : (path : List Text) (target : Text) → is_in (path ++ target ∷ []) target ≡ true
path_end [] target = rw (text_eq_refl target) refl
path_end (p ∷ ps) target = ground (arith, path_end ps target)

remaining_le :
    (path names : List Text) (target : Text)
    → remaining (path ++ target ∷ []) names ≤ remaining path names
remaining_le path [] target = omega arith
remaining_le path (n ∷ ns) target =
    ground (arith, in_path path n target, remaining_le path ns target)

remaining_lt :
    (path names : List Text) (target : Text)
    → is_in names target ≡ true
    → is_in path target ≡ false
    → remaining (path ++ target ∷ []) names < remaining path names
remaining_lt path [] target h new = absurd (cc h)
remaining_lt path (n ∷ ns) target h new = elim (Bool-cases (text_eq target n)) [
  | inl e ↦ found ((text_eq_iff target n).0 e)
  | inr e ↦ ground (arith, in_path path n target, remaining_lt path ns target (rw e at h) new)
]
  where
    found : target ≡ n → remaining (path ++ target ∷ []) (n ∷ ns) < remaining path (n ∷ ns)
    found e = rw (← e, path_end path target, new) (omega (arith, remaining_le path ns target))

All-in :
    (P : Text → Type 0) (names : List Text) (d : Text) → is_in names d ≡ true → All P names → P d
All-in P [] d h all = absurd (cc h)
All-in P (n ∷ ns) d h (p, ps) = elim (Bool-cases (text_eq d n)) [
  | inl e ↦ subst P (sym ((text_eq_iff d n).0 e)) p
  | inr e ↦ All-in P ns d (rw e at h) ps
]

module _ (v : Visit) (root d : Text) (path : List Text) where
  -- Every target that is not on the path is walked to its end.
  abbrev IsServed : Text → Type 0
  IsServed target =
      is_in path target ≡ false
      → (policy : Bool) (out : Collected) → IsDone (v target (path ++ target ∷ []) policy out)

  include-IsDone :
      (t : SpfTerm) (token : Option Text) (out : Collected)
      → IsServed (target_of t.value)
      → IsDone (visit_include v d path t token out)
  unfolding visit_include
  include-IsDone t token out served = elim (Bool-cases (is_unfollowed t)) [
    | inl e ↦ rw e (_, refl)
    | inr e ↦ rw e (elim (Bool-cases (is_in path (target_of t.value))) [
      | inl k ↦ rw k (_, refl)
      | inr k ↦ rw (k, (served k false out).1) (_, refl)
    ])
  ]

  redirect-IsDone :
      (policy : Bool) (t : SpfTerm) (token : Option Text) (out : Collected)
      → IsServed (target_of t.value)
      → IsDone (visit_redirect v d path policy t token out)
  unfolding visit_redirect
  redirect-IsDone policy t token out served = elim (Bool-cases (has_macro (target_of t.value))) [
    | inl e ↦ rw e (_, refl)
    | inr e ↦ rw e (elim (Bool-cases (is_in path (target_of t.value))) [
      | inl k ↦ rw k (_, refl)
      | inr k ↦ rw k (served k policy out)
    ])
  ]

  choose :
      (b : Bool) (x y : Option (Option Text × Collected))
      → (b ≡ true → IsDone x)
      → (b ≡ false → IsDone y)
      → IsDone (if b then x else y)
  choose true x y dx dy = dx refl
  choose false x y dx dy = dy refl

  term-IsDone :
      (policy has_all : Bool) (t : SpfTerm) (token : Option Text) (out : Collected)
      → (is_reference t ≡ true → IsServed (target_of t.value))
      → IsDone (visit_term v root d path policy has_all t token out)
  unfolding visit_term visit_mechanism
  term-IsDone policy has_all t token out served =
      choose (is_mechanism t.kind) _ _
        (λ _.
          choose (is_ip t) _ _ (λ _. (_, refl))
            (λ _.
              choose (text_eq t.name (codes "include")) _ _
                (λ e. include-IsDone t token out (served (rw e refl)))
                (λ _.
                  choose (text_eq t.name (codes "all")) _ _ (λ _. (_, refl))
                    (λ _. choose (is_kept t) _ _ (λ _. (_, refl)) (λ _. (_, refl))))))
        (λ _.
          choose (is_followed_redirect has_all t) _ _
            (λ e. redirect-IsDone policy t token out (served (ground (arith, e)))) (λ _. (_, refl)))

  terms-IsDone :
      (policy has_all : Bool) (ts : List SpfTerm) (token : Option Text) (out : Collected)
      → All (λ t. is_reference t ≡ true → IsServed (target_of t.value)) ts
      → IsDone (visit_terms v root d path policy has_all ts token out)
  unfolding visit_terms
  terms-IsDone policy has_all [] token out served = (_, refl)
  terms-IsDone policy has_all (t ∷ ts) token out (s, served) =
      let (x, e) = term-IsDone policy has_all t token out s in
      rw e (terms-IsDone policy has_all ts x.0 x.1 served)

-- Fuel above the number of names that are left ends the walk.
visit-IsDone :
    (fuel : ℕ) (r : Resolver) (names : List Text) (root d : Text) (path : List Text) (policy : Bool)
    (out : Collected)
    → IsClosed r names
    → is_in names d ≡ true
    → remaining path names < fuel
    → IsDone (visit fuel r root d path policy out)
unfolding visit
visit-IsDone zero r names root d path policy out closed known enough = absurd (omega arith)
visit-IsDone (suc fuel) r names root d path policy out closed known enough =
    by_fetch (fetch_spf_txt r d)
      (All-in
        (λ d.
          All (λ t. is_reference t ≡ true → is_in names (target_of t.value) ≡ true)
            (terms_at (fetch_spf_txt r d)))
        names d known closed)
      (λ target inside new policy' out'.
        visit-IsDone fuel r names root target (path ++ target ∷ []) policy' out' closed inside
          (omega (arith, enough, remaining_lt path names target inside new)))
  where
    each :
        (ts : List SpfTerm)
        → All (λ t. is_reference t ≡ true → is_in names (target_of t.value) ≡ true) ts
        → ((target : Text)
            → is_in names target ≡ true
            → IsServed
                (λ d' path' policy' out'. visit fuel r root d' path' policy' out')
                root
                d
                path
                target)
        → All
            (λ t.
              is_reference t ≡ true
              → IsServed
                  (λ d' path' policy' out'. visit fuel r root d' path' policy' out')
                  root
                  d
                  path
                  (target_of t.value))
            ts
    each [] h walked = tt
    each (t ∷ ts) (h, hs) walked = ((λ e. walked (target_of t.value) (h e)), each ts hs walked)

    by_fetch :
        (f : TxtFetch)
        → All (λ t. is_reference t ≡ true → is_in names (target_of t.value) ≡ true) (terms_at f)
        → ((target : Text)
            → is_in names target ≡ true
            → IsServed
                (λ d' path' policy' out'. visit fuel r root d' path' policy' out')
                root
                d
                path
                target)
        → IsDone (
            visit_fetch
              (λ d' path' policy' out'. visit fuel r root d' path' policy' out')
              root
              d
              path
              policy
              f
              out)
    by_fetch fetch_failed h walked = unfold visit_fetch in (_, refl)
    by_fetch no_record h walked = unfold visit_fetch in (_, refl)
    by_fetch (many_records rs) h walked = unfold visit_fetch in (_, refl)
    by_fetch (one_record raw) h walked =
        unfold visit_fetch in
        terms-IsDone _ root d path policy _ (parse_spf_terms raw) none out
          (each (parse_spf_terms raw) h walked)

remaining-length : (path names : List Text) → remaining path names ≤ length names
remaining-length path [] = omega arith
remaining-length path (n ∷ ns) = ground (arith, remaining-length path ns)

-- Where the names that includes and redirects can reach from the domain are among finitely many, the
-- flattening ends, with a result, within as many nested records as there are names.
pub collect_ips-enough :
    (fuel : ℕ) (domain : Text) (r : Resolver) (names : List Text)
    → All
        (λ d.
          All
            (λ t. is_reference t ≡ true → is_in names (target_of t.value) ≡ true)
            (terms_at (fetch_spf_txt r d)))
        names
    → is_in names (normalize_name domain) ≡ true
    → length names < fuel
    → (x : Text × Collected) × (collect_ips fuel domain r ≡ some x)
unfolding collect_ips
collect_ips-enough fuel domain r names closed known enough =
    let root = normalize_name domain in
    let (x, e) =
      visit-IsDone fuel r names root root (root ∷ []) true nothing closed known
        (omega (arith, enough, remaining-length (root ∷ []) names)) in
    rw (e, collect_ips) (_, refl)
