-- ===== src/Team/Spent.antt =====
-- packages/db/src/queries/team.ts: an invite is claimed once, however the requests overlap.
use mathlib.Core.Path.{subst}
use inbox_angel_worker.Common.{
  ℕ, suc, ◌+◌, ◌≤◌, ◌≡◌, ◌⊎◌, refl, Bool, true, false, not, ◌&&◌, List, [], ◌∷◌, ◌++◌, some,
  some_of, keep, change, count, arith, some_inj, Bool-cases, inl, inr, count-append, count-keep,
  count-none, ap,
}
use inbox_angel_worker.Text.{Text, text_eq}
use inbox_angel_worker.Text.Equal.{text_eq_iff}
use inbox_angel_worker.Team.{
  Team, Invite, is_invite, is_open, is_unused, claim_ownership, has_owner, is_member_of, add_member,
  remove_membership, remove_user, insert_invite, claim_invite, revoke_invite, revoke_invites_by,
  mark_invite_used, delete_user,
}
use inbox_angel_worker.Team.Requests.{
  Site, Statement, Reach, claims_ownership, adds_member, removes_membership, removes_user,
  deletes_user, inserts_invite, claims_invite, misses_invite, revokes_invite, revokes_by,
  marks_used, here, next,
}

abbrev pub has_token : Text → Invite → Bool
has_token token i = text_eq i.token token

abbrev pub is_spent : Text → Invite → Bool
is_spent token i = text_eq i.token token && not (is_unused i)

-- At most one row has a token, and every claim has its used row.
pub record IsSound (is : List Invite) (claimed : List Text) : Type 0 where
  pub one_row : (token : Text) → count (has_token token) is ≤ 1
  pub used_row : (token : Text) → count (text_eq token) claimed ≤ count (is_spent token) is

spent_le :
    (token : Text) (is : List Invite) → count (is_spent token) is ≤ count (has_token token) is
spent_le token [] = omega arith
spent_le token (i ∷ is) = ground (arith, spent_le token is)

module _ (test : Invite → Bool) (now : ℕ) where
  same_rows :
      (token : Text) (is : List Invite)
      → count (has_token token) (change test (λ i. record i { used_at = some now }) is)
        ≡ count (has_token token) is
  same_rows token [] = refl
  same_rows token (i ∷ is) = ground (arith, same_rows token is)

  more_spent :
      (token : Text) (is : List Invite)
      → count (is_spent token) is
        ≤ count (is_spent token) (change test (λ i. record i { used_at = some now }) is)
  more_spent token [] = omega arith
  more_spent token (i ∷ is) = ground (arith, more_spent token is)

  marked-IsSound :
      (is : List Invite) (claimed : List Text)
      → IsSound is claimed
      → IsSound (change test (λ i. record i { used_at = some now }) is) claimed
  marked-IsSound is claimed v = record {
    one_row = λ token. rw (same_rows token is) (v.one_row token);
    used_row = λ token. omega (arith, v.used_row token, more_spent token is);
  }

claimed_spent :
    (ws token : Text) (now : ℕ) (is : List Invite)
    → some_of (is_open ws token now) is ≡ true
    → count (is_spent token) is + 1
      ≤ count
          (is_spent token)
          (change (is_open ws token now) (λ i. record i { used_at = some now }) is)
claimed_spent ws token now [] h = absurd (cc h)
claimed_spent ws token now (i ∷ is) h = elim (Bool-cases (is_open ws token now i)) [
  | inl e ↦ ground (arith, e, more_spent (is_open ws token now) now token is)
  | inr e ↦ ground (arith, e, claimed_spent ws token now is (rw e at h))
]

kept_spent :
    (token : Text) (q : Invite → Bool) (is : List Invite)
    → ((i : Invite) → is_unused i ≡ false → q i ≡ true)
    → count (is_spent token) (keep q is) ≡ count (is_spent token) is
kept_spent token q [] all = refl
kept_spent token q (i ∷ is) all =
    by_use (Bool-cases (is_unused i)) (Bool-cases (q i)) (kept_spent token q is all)
  where
    by_use :
        (is_unused i ≡ true) ⊎ (is_unused i ≡ false)
        → (q i ≡ true) ⊎ (q i ≡ false)
        → count (is_spent token) (keep q is) ≡ count (is_spent token) is
        → count (is_spent token) (keep q (i ∷ is)) ≡ count (is_spent token) (i ∷ is)
    by_use _ (inl k) rest = rw k (ground (arith, rest))
    by_use (inl e) (inr k) rest = rw k (ground (arith, e, rest))
    by_use (inr e) (inr k) rest = absurd (cc (all i e, k))

pruned-IsSound :
    (q : Invite → Bool) (is : List Invite) (claimed : List Text)
    → ((i : Invite) → is_unused i ≡ false → q i ≡ true)
    → IsSound is claimed
    → IsSound (keep q is) claimed
pruned-IsSound q is claimed all v = record {
  one_row = λ token. omega (arith, v.one_row token, count-keep (has_token token) q is);
  used_row = λ token. rw (kept_spent token q is all) (v.used_row token);
}

claimed-IsSound :
    (ws token : Text) (now : ℕ) (is : List Invite) (claimed : List Text)
    → some_of (is_open ws token now) is ≡ true
    → IsSound is claimed
    → IsSound
        (change (is_open ws token now) (λ i. record i { used_at = some now }) is)
        (token ∷ claimed)
claimed-IsSound ws token now is claimed h v = record {
  one_row = λ t. rw (same_rows (is_open ws token now) now t is) (v.one_row t);
  used_row = λ t. elim (Bool-cases (text_eq t token)) [
    | inr e ↦ rw e (omega (arith, v.used_row t, more_spent (is_open ws token now) now t is))
    | inl e ↦ rw e (spent t ((text_eq_iff t token).0 e))
  ];
}
  where
    spent :
        (t : Text)
        → t ≡ token
        → suc (count (text_eq t) claimed)
          ≤ count
              (is_spent t)
              (change (is_open ws token now) (λ i. record i { used_at = some now }) is)
    spent t e = rw e (omega (arith, v.used_row token, claimed_spent ws token now is h))

inserted-IsSound :
    (i : Invite) (t u : Team) (claimed : List Text)
    → insert_invite i t ≡ some u
    → IsSound t.invites claimed
    → IsSound u.invites claimed
unfolding insert_invite
inserted-IsSound i t u claimed e v =
    elim (Bool-cases (some_of (λ j. text_eq j.token i.token) t.invites)) [
      | inl k ↦ absurd (cc (rw k at e))
      | inr k ↦ subst (λ (x : Team). IsSound x.invites claimed) (some_inj (rw k at e)) (added k)
    ]
  where
    one :
        some_of (has_token i.token) t.invites ≡ false
        → (token : Text) → count (has_token token) (t.invites ++ i ∷ []) ≤ 1
    one k token =
        rw (count-append (has_token token) t.invites _) (elim (Bool-cases (text_eq i.token token)) [
          | inr e ↦ rw e (omega (arith, v.one_row token))
          | inl e ↦ rw e (
              omega (
                arith,
                count-none (has_token token) t.invites (
                    subst (λ x. some_of (has_token x) t.invites ≡ false)
                      ((text_eq_iff i.token token).0 e) k),
              ))
        ])

    added : some_of (has_token i.token) t.invites ≡ false → IsSound (t.invites ++ i ∷ []) claimed
    added k = record {
      one_row = one k;
      used_row =
          λ token. rw (count-append (is_spent token) t.invites _) (omega (arith, v.used_row token));
    }

claim_ownership-invites :
    (ws user : Text) (won : Bool) (t u : Team)
    → claim_ownership ws user t ≡ some (won, u)
    → t.invites ≡ u.invites
unfolding claim_ownership
claim_ownership-invites ws user won t u e = elim (Bool-cases (has_owner ws t)) [
  | inl k ↦ ap (λ p. p.1.invites) (some_inj (rw k at e))
  | inr k ↦ elim (Bool-cases (some_of (is_member_of ws user) t.memberships)) [
    | inl j ↦ absurd (cc (rw j at (rw k at e)))
    | inr j ↦ ap (λ p. p.1.invites) (some_inj (rw j at (rw k at e)))
  ]
]

Statement-IsSound :
    (s u : Site)
    → Statement s u
    → IsSound s.team.invites s.claimed
    → IsSound u.team.invites u.claimed
unfolding remove_membership remove_user delete_user claim_invite revoke_invite revoke_invites_by
    mark_invite_used add_member
Statement-IsSound s _ (claims_ownership ws user won t e) v =
    subst (λ is. IsSound is s.claimed) (claim_ownership-invites ws user won s.team t e) v
Statement-IsSound s _ (adds_member ws user role) v =
    elim (Bool-cases (some_of (is_member_of ws user) s.team.memberships)) [
      | inl e ↦ rw e v
      | inr e ↦ rw e v
    ]
Statement-IsSound s _ (removes_membership ws user) v = v
Statement-IsSound s _ (removes_user ws user) v =
    elim (Bool-cases (
      some_of (λ m. text_eq m.user user)
        (keep (λ m. not (is_member_of ws user m)) s.team.memberships))) [
          | inl e ↦ rw e v
          | inr e ↦ rw e v
        ]
Statement-IsSound s _ (deletes_user user) v = v
Statement-IsSound s _ (inserts_invite i t new e) v = inserted-IsSound i s.team t s.claimed e v
Statement-IsSound s _ (claims_invite ws token now e) v =
    claimed-IsSound ws token now s.team.invites s.claimed e v
Statement-IsSound s _ (misses_invite ws token now e) v =
    marked-IsSound (is_open ws token now) now s.team.invites s.claimed v
Statement-IsSound s _ (revokes_invite ws token) v =
    pruned-IsSound _ s.team.invites s.claimed (λ i e. ground (arith, e)) v
Statement-IsSound s _ (revokes_by ws by) v =
    pruned-IsSound _ s.team.invites s.claimed (λ i e. ground (arith, e)) v
Statement-IsSound s _ (marks_used ws token now) v =
    marked-IsSound (is_invite ws token) now s.team.invites s.claimed v

Reach-IsSound :
    (s u : Site) → Reach s u → IsSound s.team.invites s.claimed → IsSound u.team.invites u.claimed
Reach-IsSound s _ here v = v
Reach-IsSound s _ (next {u} {v} r st) sound = Statement-IsSound u v st (Reach-IsSound s u r sound)

-- However the statements of overlapping requests interleave, a token is claimed at most once, where the
-- tokens of the rows that stand at the start are distinct and none has been claimed.
pub Reach-claimed :
    (s u : Site) (token : Text)
    → ((t : Text) → count (has_token t) s.team.invites ≤ 1)
    → s.claimed ≡ []
    → Reach s u
    → count (text_eq token) u.claimed ≤ 1
Reach-claimed s u token rows none_yet r =
    omega (arith, v.used_row token, v.one_row token, spent_le token u.team.invites)
  where
    v : IsSound u.team.invites u.claimed
    v = Reach-IsSound s u r (record { one_row = rows; used_row = λ t. rw none_yet (omega arith) })
