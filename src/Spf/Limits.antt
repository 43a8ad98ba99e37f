-- ===== src/Spf/Limits.antt =====
-- packages/dns-checks/src/spf.ts: an analysis without a permanent error keeps the limits of RFC 7208.
use inbox_angel_worker.Common.{
  ℕ, zero, suc, ◌<◌, ◌≡◌, refl, Bool, true, false, List, [], ◌∷◌, ◌++◌, none, some, some_of, arith,
  if◌then◌else◌, leb, ltb, ◌==◌, Bool-cases, inl, inr, length,
}
use inbox_angel_worker.Text.{Text, is_empty, text_eq, codes}
use inbox_angel_worker.Spf.{SpfTerm, words}
use inbox_angel_worker.Spf.Walk.{
  SpfIssueCode, lookup_limit, void_lookup_limit, Answer, answers, no_answer, lookup_failed,
  Resolver, Ctx, TxtFetch, one_record, no_record, many_records, fetch_failed, fetch_spf_txt,
  add_issue, note_dns_error, count_void, count_lookup, own_target, exists_target, judge_addresses,
  check_host, second_word, check_mx_hosts, judge_mx, judge_exists, check_mx, check_exists,
  check_addresses, Follow, no_record_code, follow_fetch, follow_target, reach, target_of,
  check_reference, is_reference, check_counted, is_unknown, is_skipped, check_term, walk_terms,
  walk_record, walk, new_ctx, has_macro, syntax, depth_limit, loop, multiple_records, mx_name_limit,
}

abbrev pub is_over_lookups : SpfIssueCode × Text → Bool
is_over_lookups (lookup_limit, _) = true
is_over_lookups _ = false

abbrev pub is_over_voids : SpfIssueCode × Text → Bool
is_over_voids (void_lookup_limit, _) = true
is_over_voids _ = false

-- A limit that is passed has its issue.
pub record Inv (c : Ctx) : Type 0 where
  pub over_lookups : 10 < c.lookups → some_of is_over_lookups c.issues ≡ true
  pub over_voids : 2 < c.voids → some_of is_over_voids c.issues ≡ true

some_of-more :
    {A : Type 0} (test : A → Bool) (xs ys : List A)
    → some_of test xs ≡ true
    → some_of test (xs ++ ys) ≡ true
some_of-more test [] ys h = absurd (cc h)
some_of-more test (x ∷ xs) ys h = ground (arith, some_of-more test xs ys)

some_of-last :
    {A : Type 0} (test : A → Bool) (xs : List A) (y : A)
    → test y ≡ true
    → some_of test (xs ++ y ∷ []) ≡ true
some_of-last test [] y h = ground arith
some_of-last test (x ∷ xs) y h = ground (arith, some_of-last test xs y)

add_issue-Inv : (code : SpfIssueCode) (d : Text) (c : Ctx) → Inv c → Inv (add_issue code d c)
add_issue-Inv code d c v = record {
  over_lookups = λ h. some_of-more is_over_lookups c.issues _ (v.over_lookups h);
  over_voids = λ h. some_of-more is_over_voids c.issues _ (v.over_voids h);
}

note_dns_error-Inv : (d : Text) (c : Ctx) → Inv c → Inv (note_dns_error d c)
note_dns_error-Inv d c v = record {
  over_lookups = (add_issue-Inv _ d c v).over_lookups;
  over_voids = (add_issue-Inv _ d c v).over_voids;
}

count_void-Inv : (d : Text) (c : Ctx) → Inv c → Inv (count_void d c)
unfolding count_void
count_void-Inv d c v = elim (Bool-cases (suc c.voids == 3)) [
  | inl e ↦ rw e (record {
    over_lookups = λ h. some_of-more is_over_lookups c.issues _ (v.over_lookups h);
    over_voids = λ h. some_of-last is_over_voids c.issues (void_lookup_limit, d) refl;
  })
  | inr e ↦
      rw e (record { over_lookups = v.over_lookups; over_voids = λ h. v.over_voids (ground arith) })
]

count_lookup-Inv : (d : Text) (c : Ctx) → Inv c → Inv (count_lookup d c)
unfolding count_lookup
count_lookup-Inv d c v = elim (Bool-cases (suc c.lookups == 11)) [
  | inl e ↦ rw e (record {
    over_lookups = λ h. some_of-last is_over_lookups c.issues (lookup_limit, d) refl;
    over_voids = λ h. some_of-more is_over_voids c.issues _ (v.over_voids h);
  })
  | inr e ↦
      rw e (record { over_lookups = λ h. v.over_lookups (ground arith); over_voids = v.over_voids })
]

judge_addresses-Inv : (d : Text) (a b : Answer) (c : Ctx) → Inv c → Inv (judge_addresses d a b c)
unfolding judge_addresses
judge_addresses-Inv d lookup_failed b c v = note_dns_error-Inv d c v
judge_addresses-Inv d no_answer lookup_failed c v = note_dns_error-Inv d c v
judge_addresses-Inv d no_answer no_answer c v = count_void-Inv d c v
judge_addresses-Inv d no_answer (answers _) c v = v
judge_addresses-Inv d (answers _) lookup_failed c v = note_dns_error-Inv d c v
judge_addresses-Inv d (answers _) no_answer c v = v
judge_addresses-Inv d (answers _) (answers _) c v = v

check_host-Inv : (r : Resolver) (h : Text) (c : Ctx) → Inv c → Inv (check_host r h c)
check_host-Inv r [] c v = v
check_host-Inv r (x ∷ h) c v = judge_addresses-Inv (x ∷ h) _ _ c v

check_mx_hosts-Inv : (r : Resolver) (ds : List Text) (c : Ctx) → Inv c → Inv (check_mx_hosts r ds c)
unfolding check_mx_hosts
check_mx_hosts-Inv r [] c v = v
check_mx_hosts-Inv r (d ∷ ds) c v =
    check_mx_hosts-Inv r ds _ (check_host-Inv r (second_word (words d)) c v)

judge_mx-Inv : (r : Resolver) (d : Text) (a : Answer) (c : Ctx) → Inv c → Inv (judge_mx r d a c)
unfolding judge_mx
judge_mx-Inv r d lookup_failed c v = note_dns_error-Inv d c v
judge_mx-Inv r d no_answer c v = count_void-Inv d c v
judge_mx-Inv r d (answers ds) c v = elim (Bool-cases (ltb 10 (length ds))) [
  | inl e ↦ rw e (add_issue-Inv mx_name_limit d c v)
  | inr e ↦ rw e (check_mx_hosts-Inv r ds c v)
]

judge_exists-Inv : (d : Text) (a : Answer) (c : Ctx) → Inv c → Inv (judge_exists d a c)
unfolding judge_exists
judge_exists-Inv d lookup_failed c v = note_dns_error-Inv d c v
judge_exists-Inv d no_answer c v = count_void-Inv d c v
judge_exists-Inv d (answers _) c v = v

check_mx-Inv : (r : Resolver) (d : Text) (c : Ctx) → Inv c → Inv (check_mx r d c)
check_mx-Inv r [] c v = v
check_mx-Inv r (x ∷ d) c v = judge_mx-Inv r (x ∷ d) _ c v

check_exists-Inv : (r : Resolver) (d : Text) (c : Ctx) → Inv c → Inv (check_exists r d c)
check_exists-Inv r [] c v = v
check_exists-Inv r (x ∷ d) c v = judge_exists-Inv (x ∷ d) _ c v

-- Either branch keeps the invariant.
if-Inv : (b : Bool) (x y : Ctx) → Inv x → Inv y → Inv (if b then x else y)
if-Inv true x y v u = v
if-Inv false x y v u = u

check_addresses-Inv :
    (r : Resolver) (d : Text) (t : SpfTerm) (c : Ctx) → Inv c → Inv (check_addresses r d t c)
unfolding check_addresses
check_addresses-Inv r d t c v =
    if-Inv (text_eq t.name (codes "a")) _ _ (check_host-Inv r (own_target t.value d) c v) (
      if-Inv (text_eq t.name (codes "mx")) _ _ (check_mx-Inv r (own_target t.value d) c v) (
        if-Inv (text_eq t.name (codes "exists")) _ _
          (check_exists-Inv r (exists_target t.value) c v) v))

-- Walking a target keeps the invariant.
abbrev Keeps : Follow → Type 0
Keeps none = Unit
Keeps (some f) = (d s : Text) (p : List Text) (c : Ctx) → Inv c → Inv (f d s p c)

follow_fetch-Inv :
    (f : Text → Text → List Text → Ctx → Ctx) (name target : Text) (path : List Text) (a : TxtFetch)
    (c : Ctx)
    → Keeps (some f)
    → Inv c
    → Inv (follow_fetch f name target path a c)
unfolding follow_fetch
follow_fetch-Inv f name target path fetch_failed c k v = note_dns_error-Inv target c v
follow_fetch-Inv f name target path no_record c k v =
    count_void-Inv target _ (add_issue-Inv (no_record_code name) target c v)
follow_fetch-Inv f name target path (many_records rs) c k v =
    add_issue-Inv multiple_records target c v
follow_fetch-Inv f name target path (one_record raw) c k v = k target raw _ c v

reach-Inv : (d : Text) (c : Ctx) → Inv c → Inv (reach d c)
reach-Inv d c v = record { over_lookups = v.over_lookups; over_voids = v.over_voids }

follow_target-Inv :
    (r : Resolver) (f : Follow) (name domain target : Text) (path : List Text) (c : Ctx)
    → Keeps f
    → Inv c
    → Inv (follow_target r f name domain target path c)
unfolding follow_target
follow_target-Inv r none name domain target path c k v = add_issue-Inv depth_limit domain c v
follow_target-Inv r (some f) name domain target path c k v =
    follow_fetch-Inv f name target path (fetch_spf_txt r target) c k v

module _ (r : Resolver) (f : Follow) (domain : Text) (path : List Text) (k : Keeps f) where
  check_counted-Inv : (t : SpfTerm) (c : Ctx) → Inv c → Inv (check_counted r f domain path t c)
  unfolding check_counted check_reference
  check_counted-Inv t c v =
      let target = target_of t.value in
      if-Inv (is_reference t) _ _
        (if-Inv (is_empty target) _ _ (add_issue-Inv syntax domain c v) (
          if-Inv (has_macro target) _ _ v (
            if-Inv (some_of (text_eq target) path) _ _
              (add_issue-Inv loop domain (reach target c) (reach-Inv target c v))
              (follow_target-Inv r f t.name domain target path (reach target c) k
                (reach-Inv target c v)))))
        (check_addresses-Inv r domain t c v)

  check_term-Inv :
      (has_all : Bool) (t : SpfTerm) (c : Ctx)
      → Inv c
      → Inv (check_term r f domain path has_all t c).0
  unfolding check_term
  check_term-Inv has_all t c v = elim (Bool-cases (is_unknown t)) [
    | inl e ↦ rw e (add_issue-Inv syntax domain c v)
    | inr e ↦ rw e (elim (Bool-cases (is_skipped has_all t)) [
      | inl g ↦ rw g v
      | inr g ↦ rw g (elim (Bool-cases (leb (count_lookup domain c).lookups 10)) [
        | inl h ↦ rw h (check_counted-Inv t (count_lookup domain c) (count_lookup-Inv domain c v))
        | inr h ↦ rw h (count_lookup-Inv domain c v)
      ])
    ])
  ]

  walk_terms-Inv :
      (has_all : Bool) (ts : List SpfTerm) (c : Ctx)
      → Inv c
      → Inv (walk_terms r f domain path has_all ts c)
  unfolding walk_terms
  walk_terms-Inv has_all [] c v = v
  walk_terms-Inv has_all (t ∷ ts) c v =
      let v' = check_term-Inv has_all t c v in
      if-Inv (check_term r f domain path has_all t c).1 _ _ (walk_terms-Inv has_all ts _ v') v'

pub walk-Inv :
    (room : ℕ) (r : Resolver) (domain raw : Text) (path : List Text) (c : Ctx)
    → Inv c
    → Inv (walk room r domain raw path c)
unfolding walk walk_record
walk-Inv zero r domain raw path c v = walk_terms-Inv r none domain path tt _ _ c v
walk-Inv (suc room) r domain raw path c v =
    walk_terms-Inv r (some (λ d s p k. walk room r d s p k)) domain path (walk-Inv room r) _ _ c v

pub new_ctx-Inv : Inv new_ctx
new_ctx-Inv = record {
  over_lookups = λ h. absurd (omega (arith, h));
  over_voids = λ h. absurd (omega (arith, h));
}
