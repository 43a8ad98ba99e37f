-- ===== src/Team/Owned.antt =====
-- packages/db/src/queries/workspaces.ts and team.ts: each statement leaves an owned workspace owned.
use mathlib.Core.Path.{subst}
use inbox_angel_worker.Common.{
  ◌≡◌, refl, sym, Bool, true, false, not, ◌||◌, List, [], ◌∷◌, ◌++◌, Option, none, some, some_of,
  count, arith, some_inj, Bool-cases, inl, inr, count-append, count-keep, count-none, ap,
}
use inbox_angel_worker.Text.{Text, text_eq}
use inbox_angel_worker.Text.Equal.{text_eq_iff, text_eq_refl}
use inbox_angel_worker.Team.{
  Team, User, Membership, Role, owner, is_owner, is_owner_of, is_member_of, has_owner, new_member,
  claim_ownership, add_member, add_user, added_role, is_plain, create_workspace,
}
use inbox_angel_worker.Team.Lifecycle.{
  is_other_owner, may_go, promote, demote, leave, transfer_ownership, found_workspace,
}
use inbox_angel_worker.Team.Handover.{
  handed_one, left_one, keep_same, apart, handed_elsewhere, handed_members,
}
use inbox_angel_worker.Team.Court.{IsOwned}

abbrev stays : Text → Text → Team → Membership → Bool
stays ws user t m = not (may_go ws user (some_of (is_other_owner ws user) t.memberships) m)

module _ (ws : Text) where
  -- What is written for another workspace leaves this one as it is.
  added_elsewhere :
      (other user : Text) (role : Role) (t : Team)
      → text_eq other ws ≡ false
      → IsOwned ws t
      → IsOwned ws (new_member other user role t)
  added_elsewhere other user role t e v = record {
    one = rw (count-append (is_owner_of ws) t.memberships _, e) (omega (arith, v.one));
    unique =
        λ u. rw (count-append (is_member_of ws u) t.memberships _, e) (omega (arith, v.unique u));
    stands = v.stands;
  }

  added_plain :
      (user : Text) (role : Role) (t : Team)
      → is_owner role ≡ false
      → some_of (is_member_of ws user) t.memberships ≡ false
      → IsOwned ws t
      → IsOwned ws (new_member ws user role t)
  added_plain user role t plain k v = record {
    one =
        rw (count-append (is_owner_of ws) t.memberships _, text_eq_refl ws, plain)
          (omega (arith, v.one));
    unique = λ u.
        rw (count-append (is_member_of ws u) t.memberships _, text_eq_refl ws)
          (elim (Bool-cases (text_eq user u)) [
            | inr e ↦ rw e (omega (arith, v.unique u))
            | inl e ↦ rw e (
                omega (
                  arith,
                  count-none (is_member_of ws u) t.memberships (
                      subst (λ x. some_of (is_member_of ws x) t.memberships ≡ false)
                        ((text_eq_iff user u).0 e) k),
                ))
          ]);
    stands = v.stands;
  }

  pub joined :
      (other user : Text) (role : Role) (t : Team)
      → (text_eq other ws ≡ true → is_owner role ≡ false)
      → IsOwned ws t
      → IsOwned ws (add_member other user role t)
  unfolding add_member
  joined other user role t plain v =
      elim (Bool-cases (some_of (is_member_of other user) t.memberships)) [
        | inl e ↦ rw e v
        | inr e ↦ rw e (elim (Bool-cases (text_eq other ws)) [
          | inr f ↦ added_elsewhere other user role t f v
          | inl f ↦
              let same = (text_eq_iff other ws).0 f in
              subst (λ x. IsOwned ws (new_member x user role t)) (sym same)
                (added_plain user role t (plain f)
                  (subst (λ x. some_of (is_member_of x user) t.memberships ≡ false) same e) v)
        ])
      ]

  pub claimed :
      (other user : Text) (won : Bool) (t u : Team)
      → claim_ownership other user t ≡ some (won, u)
      → IsOwned ws t
      → IsOwned ws u
  unfolding claim_ownership has_owner
  claimed other user won t u e v = elim (Bool-cases (some_of (is_owner_of other) t.memberships)) [
    | inl k ↦ subst (IsOwned ws) (ap (λ p. p.1) (some_inj (rw k at e))) v
    | inr k ↦ elim (Bool-cases (some_of (is_member_of other user) t.memberships)) [
      | inl j ↦ absurd (cc (rw j at (rw k at e)))
      | inr j ↦
          subst (IsOwned ws) (ap (λ p. p.1) (some_inj (rw j at (rw k at e))))
            (added_elsewhere other user owner t (elsewhere k) v)
    ]
  ]
    where
      elsewhere : some_of (is_owner_of other) t.memberships ≡ false → text_eq other ws ≡ false
      elsewhere k = elim (Bool-cases (text_eq other ws)) [
        | inr f ↦ f
        | inl f ↦ absurd (
            omega (
              arith,
              v.one,
              count-none (is_owner_of ws) t.memberships (
                  subst (λ x. some_of (is_owner_of x) t.memberships ≡ false)
                    ((text_eq_iff other ws).0 f) k),
            ))
      ]

  pub created :
      (other : Text) (t u : Team)
      → create_workspace other t ≡ some u
      → IsOwned ws t
      → (text_eq other ws ≡ false) × IsOwned ws u
  unfolding create_workspace
  created other t u e v = elim (Bool-cases (some_of (text_eq other) t.workspaces)) [
    | inl k ↦ absurd (cc (rw k at e))
    | inr k ↦ (
      elsewhere k,
      subst (IsOwned ws) (some_inj (rw k at e))
          (record { one = v.one; unique = v.unique; stands = still t.workspaces v.stands }),
    )
  ]
    where
      elsewhere : some_of (text_eq other) t.workspaces ≡ false → text_eq other ws ≡ false
      elsewhere k = elim (Bool-cases (text_eq other ws)) [
        | inr f ↦ f
        | inl f ↦ absurd (cc (rw ((text_eq_iff other ws).0 f) at k, v.stands))
      ]

      still :
          (xs : List Text)
          → some_of (text_eq ws) xs ≡ true
          → some_of (text_eq ws) (xs ++ other ∷ []) ≡ true
      still [] h = absurd (cc h)
      still (x ∷ xs) h = elim (Bool-cases (text_eq ws x)) [
        | inl e ↦ rw e refl
        | inr e ↦ rw e (still xs (rw e at h))
      ]

  pub founded :
      (other user : Text) (t u : Team)
      → found_workspace other user t ≡ some u
      → IsOwned ws t
      → IsOwned ws u
  unfolding found_workspace
  founded other user t u e v = from (create_workspace other t) refl e
    where
      from :
          (o : Option Team)
          → create_workspace other t ≡ o
          → elim o [ none ↦ none | some t' ↦ some (new_member other user owner t') ] ≡ some u
          → IsOwned ws u
      from none k h = absurd (cc h)
      from (some t') k h =
          let (apart, w) = created other t t' k v in
          subst (IsOwned ws) (some_inj h) (added_elsewhere other user owner t' apart w)

  pub user_added :
      (other : Text) (x : User) (had_owner : Bool) (t u : Team)
      → add_user other x had_owner t ≡ some u
      → (text_eq other ws ≡ true → had_owner ≡ true)
      → IsOwned ws t
      → IsOwned ws u
  unfolding add_user
  user_added other x had_owner t u e had v =
      elim (Bool-cases (
        some_of (λ y. text_eq y.id x.id || text_eq y.email x.email) t.users
        || some_of (is_member_of other x.id) t.memberships)) [
          | inl k ↦ absurd (cc (rw k at e))
          | inr k ↦ subst (IsOwned ws) (some_inj (rw k at e)) (added (ground (arith, k)))
        ]
    where
      listed : IsOwned ws (record t { users = t.users ++ x ∷ [] })
      listed = record { one = v.one; unique = v.unique; stands = v.stands }

      plain :
          (is_admin : Bool)
          → text_eq other ws ≡ true
          → is_owner (added_role is_admin had_owner) ≡ false
      plain true f = rw (had f) refl
      plain false f = refl

      added :
          some_of (is_member_of other x.id) t.memberships ≡ false
          → IsOwned ws (
              new_member other x.id
                (added_role (not (is_plain x.role)) had_owner)
                (record t { users = t.users ++ x ∷ [] }))
      added k = elim (Bool-cases (text_eq other ws)) [
        | inr f ↦ added_elsewhere other x.id _ (record t { users = t.users ++ x ∷ [] }) f listed
        | inl f ↦
            let same = (text_eq_iff other ws).0 f in
            subst
              (λ y. IsOwned ws (
                new_member y x.id (added_role (not (is_plain x.role)) had_owner)
                  (record t { users = t.users ++ x ∷ [] })))
              (sym same)
              (added_plain x.id (added_role (not (is_plain x.role)) had_owner)
                (record t { users = t.users ++ x ∷ [] }) (plain (not (is_plain x.role)) f)
                (subst (λ y. some_of (is_member_of y x.id) t.memberships ≡ false) same k) listed)
      ]

  pub left_here : (user : Text) (t : Team) → IsOwned ws t → IsOwned ws (leave user ws t).1
  unfolding leave
  left_here user t v = record {
    one = left_one ws user t.memberships v.one;
    unique = λ u.
        omega (arith, v.unique u, count-keep (is_member_of ws u) (stays ws user t) t.memberships);
    stands = v.stands;
  }

  pub left_elsewhere :
      (other user : Text) (t : Team)
      → text_eq other ws ≡ false
      → IsOwned ws t
      → IsOwned ws (leave user other t).1
  unfolding leave
  left_elsewhere other user t e v = record {
    one =
        rw
          (keep_same (is_owner_of ws) (stays other user t) (λ m h. not_here m (ground (arith, h)))
            t.memberships)
          v.one;
    unique = λ u.
        omega
          (arith, v.unique u, count-keep (is_member_of ws u) (stays other user t) t.memberships);
    stands = v.stands;
  }
    where
      not_here : (m : Membership) → text_eq m.workspace other ≡ true → is_owner_of ws m ≡ false
      not_here m h = rw (apart other ws e m.workspace h) refl

  pub handed :
      (other from to : Text) (t : Team)
      → text_eq to from ≡ false
      → IsOwned ws t
      → IsOwned ws (transfer_ownership other from to t).1
  unfolding transfer_ownership
  handed other from to t differ v = record {
    one = elim (Bool-cases (text_eq other ws)) [
      | inl e ↦
          subst
            (λ x. count (is_owner_of ws) (demote x from to (promote x from to t.memberships)) ≡ 1)
            (sym ((text_eq_iff other ws).0 e))
            (handed_one ws from to differ t.memberships v.one (v.unique to))
      | inr e ↦ rw (handed_elsewhere ws other from to e t.memberships) v.one
    ];
    unique = λ u. rw (handed_members ws other from to u t.memberships) (v.unique u);
    stands = v.stands;
  }
