-- ===== src/Spf/Flatten/Terms.antt =====
-- packages/dns-checks/src/spf.ts: what `visit` of `collectIps` leaves behind of each term of a record.
use mathlib.Core.Path.{subst}
use inbox_angel_worker.Common.{
  ◌≡◌, sym, refl, Bool, true, false, not, ◌&&◌, List, [], ◌∷◌, ◌++◌, Option, none, some, arith,
  some_of, All, Bool-cases, inl, inr, ap, some_inj, &&-eq-true,
}
use inbox_angel_worker.Text.{Text, codes, text_eq, to_lower}
use inbox_angel_worker.Text.Equal.{text_eq_iff}
use inbox_angel_worker.Spf.{SpfTerm, is_mechanism}
use inbox_angel_worker.Spf.Walk.{target_of, has_macro, loop}
use inbox_angel_worker.Spf.Flatten.{
  Visit, Collected, visit_terms, visit_term, visit_mechanism, visit_include, visit_redirect,
  and_then, with_token, is_unfollowed, is_ip, is_followed_redirect, has_ip, add_error, add_ip,
  ip_entry, is_kept, keep_raw, keep_own,
}
use inbox_angel_worker.Spf.Flatten.Grows.{
  has_extra, Grows, Grows-refl, Grows-trans, IsGrowing, visit_terms-Grows, not_empty,
}
use inbox_angel_worker.Spf.Flatten.Covers.{
  is_followed, is_left, kept_key, own_text, HasTerm, Result, added_ip, added_raw, added_own,
  kept_only, HasTerm-Grows,
}

-- What the walk of a term leaves: what the term asks, and the walk of its target.
abbrev pub Handled : Visit → Text → Text → List Text → Bool → Collected → SpfTerm → Type 0
Handled v root d path has_all out t =
    HasTerm root d has_all out t
    × (is_followed has_all t ≡ true
        → (policy : Bool) × (a : Collected) × (y : Result) × (v (target_of t.value)
              (path ++ target_of t.value ∷ []) policy a
            ≡ some y)
          × Grows y.1 out)

not_ip : (t : SpfTerm) → text_eq t.name (codes "include") ≡ true → is_ip t ≡ false
not_ip t e = rw ((text_eq_iff t.name (codes "include")).0 e) (unfold text_eq in refl)

module _ (v : Visit) (root d : Text) (path : List Text) (policy has_all : Bool) where
  looped :
      (token : Option Text) (a : Collected) (x : Result)
      → some (token, add_error loop d a) ≡ some x
      → x.1.errors ≡ []
      → ⊥
  looped token a x e clean =
      not_empty a.errors (loop, d)
        (subst (λ (y : Collected). y.errors ≡ []) (sym (ap (λ p. p.1) (some_inj e))) clean)

  unwrapped :
      (token : Option Text) (o : Option Result) (x : Result)
      → with_token token o ≡ some x
      → (y : Result) × (o ≡ some y) × (y.1 ≡ x.1)
  unwrapped token none x e = absurd (cc e)
  unwrapped token (some (t, b)) x e = ((t, b), refl, ap (λ p. p.1) (some_inj e))

  term_address :
      (t : SpfTerm) (token : Option Text) (a : Collected) (x : Result)
      → visit_term v root d path policy has_all t token a ≡ some x
      → (is_mechanism t.kind && is_ip t) ≡ true
      → has_ip (to_lower (ip_entry t)) x.1 ≡ true
  unfolding visit_term visit_mechanism
  term_address t token a x e h =
      let (m, ip) = &&-eq-true (is_mechanism t.kind) (is_ip t) h in
      let same : add_ip (ip_entry t) a ≡ x.1 = ap (λ p. p.1) (some_inj (rw ip at (rw m at e))) in
      subst (λ b. has_ip (to_lower (ip_entry t)) b ≡ true) same (added_ip (ip_entry t) a)

  term_kept :
      (t : SpfTerm) (token : Option Text) (a : Collected) (x : Result)
      → visit_term v root d path policy has_all t token a ≡ some x
      → (is_mechanism t.kind && is_kept t) ≡ true
      → has_extra (kept_key (own_text root d t t.value)) x.1 ≡ true
  unfolding visit_term visit_mechanism
  term_kept t token a x e h =
      let (m, own) = &&-eq-true (is_mechanism t.kind) (is_kept t) h in
      let (ip, inc, all) = kept_only t own in
      let same : keep_own root d t t.value a ≡ x.1 =
        ap (λ p. p.1) (some_inj (rw own at (rw all at (rw inc at (rw ip at (rw m at e)))))) in
      subst (λ b. has_extra (kept_key (own_text root d t t.value)) b ≡ true) same
        (added_own root d t t.value a)

  raw_left :
      (t : SpfTerm) (token : Option Text) (a : Collected) (x : Result)
      → some (token, keep_raw t.raw a) ≡ some x
      → has_extra (kept_key t.raw) x.1 ≡ true
  raw_left t token a x e =
      subst (λ b. has_extra (kept_key t.raw) b ≡ true) (ap (λ p. p.1) (some_inj e))
        (added_raw t.raw a)

  term_left :
      (t : SpfTerm) (token : Option Text) (a : Collected) (x : Result)
      → visit_term v root d path policy has_all t token a ≡ some x
      → is_left has_all t ≡ true
      → has_extra (kept_key t.raw) x.1 ≡ true
  unfolding visit_term visit_mechanism visit_include visit_redirect
  term_left t token a x e h = elim (Bool-cases (is_mechanism t.kind)) [
    | inl m ↦
        let (inc, out) =
          &&-eq-true (text_eq t.name (codes "include")) (is_unfollowed t) (rw m at h) in
        raw_left t token a x (rw out at (rw inc at (rw (not_ip t inc) at (rw m at e))))
    | inr m ↦
        let (red, out) =
          &&-eq-true (is_followed_redirect has_all t) (has_macro (target_of t.value)) (rw m at h) in
        raw_left t token a x (rw out at (rw red at (rw m at e)))
  ]

  include_followed :
      (t : SpfTerm) (token : Option Text) (a : Collected) (x : Result)
      → is_unfollowed t ≡ false
      → visit_include v d path t token a ≡ some x
      → x.1.errors ≡ []
      → (y : Result) × (v (target_of t.value) (path ++ target_of t.value ∷ []) false a ≡ some y)
        × Grows y.1 x.1
  unfolding visit_include
  include_followed t token a x u e clean =
      elim (Bool-cases (some_of (text_eq (target_of t.value)) path)) [
        | inl k ↦ absurd (looped token a x (rw k at (rw u at e)) clean)
        | inr k ↦
            let (y, at, same) = unwrapped token _ x (rw k at (rw u at e)) in
            (y, at, subst (Grows y.1) same (Grows-refl y.1))
      ]

  redirect_followed :
      (t : SpfTerm) (token : Option Text) (a : Collected) (x : Result)
      → has_macro (target_of t.value) ≡ false
      → visit_redirect v d path policy t token a ≡ some x
      → x.1.errors ≡ []
      → v (target_of t.value) (path ++ target_of t.value ∷ []) policy a ≡ some x
  unfolding visit_redirect
  redirect_followed t token a x u e clean =
      elim (Bool-cases (some_of (text_eq (target_of t.value)) path)) [
        | inl k ↦ absurd (looped token a x (rw k at (rw u at e)) clean)
        | inr k ↦ rw k at (rw u at e)
      ]

  term_followed :
      (t : SpfTerm) (token : Option Text) (a : Collected) (x : Result)
      → visit_term v root d path policy has_all t token a ≡ some x
      → x.1.errors ≡ []
      → is_followed has_all t ≡ true
      → (p : Bool) × (b : Collected) × (y : Result) × (v
            (target_of t.value)
            (path ++ target_of t.value ∷ [])
            p
            b
          ≡ some y)
        × Grows y.1 x.1
  unfolding visit_term visit_mechanism
  term_followed t token a x e clean h = elim (Bool-cases (is_mechanism t.kind)) [
    | inl m ↦
        let (inc, plain) =
          &&-eq-true (text_eq t.name (codes "include")) (not (is_unfollowed t)) (rw m at h) in
        let (y, at, g) =
          include_followed t token a x (ground (arith, plain))
            (rw inc at (rw (not_ip t inc) at (rw m at e))) clean in
        (false, a, y, at, g)
    | inr m ↦
        let (red, plain) =
          &&-eq-true (is_followed_redirect has_all t) (not (has_macro (target_of t.value)))
            (rw m at h) in
        (
          policy,
          a,
          x,
          redirect_followed t token a x (ground (arith, plain)) (rw red at (rw m at e)) clean,
          Grows-refl x.1,
        )
  ]

module _ (v : Visit) (g : IsGrowing v) (root d : Text) (path : List Text)
    (policy has_all : Bool) where
  Handled-Grows :
      (a b : Collected) (t : SpfTerm)
      → Grows a b
      → Handled v root d path has_all a t
      → Handled v root d path has_all b t
  Handled-Grows a b t more (has, followed) = (
    HasTerm-Grows root d has_all a b t more has,
    λ f. let (p, c, y, at, up) = followed f in (p, c, y, at, Grows-trans up more),
  )

  pub terms-Handled :
      (ts : List SpfTerm) (token : Option Text) (a : Collected) (x : Result)
      → visit_terms v root d path policy has_all ts token a ≡ some x
      → x.1.errors ≡ []
      → All (Handled v root d path has_all x.1) ts
  unfolding visit_terms
  terms-Handled [] token a x e clean = tt
  terms-Handled (t ∷ ts) token a x e clean =
      from (visit_term v root d path policy has_all t token a) refl e
        (λ token' b k. terms-Handled ts token' b x k clean)
    where
      from :
          (o : Option Result)
          → visit_term v root d path policy has_all t token a ≡ o
          → and_then o (λ token' b. visit_terms v root d path policy has_all ts token' b) ≡ some x
          → ((token' : Option Text) (b : Collected)
              → visit_terms v root d path policy has_all ts token' b ≡ some x
              → All (Handled v root d path has_all x.1) ts)
          → Handled v root d path has_all x.1 t × All (Handled v root d path has_all x.1) ts
      from none k h rest = absurd (cc h)
      from (some (token', b)) k h rest =
          let more = visit_terms-Grows v g root d path policy has_all ts token' b x h in
          (
            Handled-Grows b x.1 t more (
              (
                term_address v root d path policy has_all t token a (token', b) k,
                term_kept v root d path policy has_all t token a (token', b) k,
                term_left v root d path policy has_all t token a (token', b) k,
              ),
              term_followed v root d path policy has_all t token a (token', b) k (more.clean clean),
            ),
            rest token' b h,
          )
