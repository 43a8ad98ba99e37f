-- ===== src/Team/Owner.antt =====
-- packages/db/src/queries/workspaces.ts and team.ts: the owner of a workspace, whatever requests overlap.
use mathlib.Core.Path.{subst}
use inbox_angel_worker.Common.{
  ◌≡◌, refl, sym, Bool, true, false, not, List, [], ◌∷◌, some_of, keep, arith, Bool-cases, inl, inr,
  count-none,
}
use inbox_angel_worker.Text.{Text, text_eq}
use inbox_angel_worker.Text.Equal.{text_eq_iff, text_eq_refl}
use inbox_angel_worker.Team.{Team, owner, is_owner_of, has_owner}
use inbox_angel_worker.Team.Lifecycle.{leave}
use inbox_angel_worker.Team.Court.{
  Court, Request, joins, begins, owns_new, reads_none, adds_user, founds, claims, leaves,
  hands_over, Reach, here, next, IsOwned,
}
use inbox_angel_worker.Team.Owned.{
  joined, claimed, created, founded, user_added, left_here, left_elsewhere, handed,
}

not_founding :
    (ws other : Text) (xs : List Text)
    → text_eq other ws ≡ false
    → some_of (text_eq ws) xs ≡ false
    → some_of (text_eq ws) (other ∷ xs) ≡ false
not_founding ws other xs e h = elim (Bool-cases (text_eq ws other)) [
  | inr f ↦ rw f h
  | inl f ↦ absurd (cc (rw ((text_eq_iff ws other).0 f, text_eq_refl other) at e))
]

still_not :
    (ws : Text) (q : Text → Bool) (xs : List Text)
    → some_of (text_eq ws) xs ≡ false
    → some_of (text_eq ws) (keep q xs) ≡ false
still_not ws q [] h = refl
still_not ws q (x ∷ xs) h = elim (Bool-cases (text_eq ws x)) [
  | inl e ↦ absurd (cc (rw e at h))
  | inr e ↦ elim (Bool-cases (q x)) [
    | inl f ↦ rw (f, e) (still_not ws q xs (rw e at h))
    | inr f ↦ rw f (still_not ws q xs (rw e at h))
  ]
]

seen : (ws : Text) (t : Team) → IsOwned ws t → has_owner ws t ≡ true
unfolding has_owner
seen ws t v = elim (Bool-cases (some_of (is_owner_of ws) t.memberships)) [
  | inl e ↦ e
  | inr e ↦ absurd (omega (arith, v.one, count-none (is_owner_of ws) t.memberships e))
]

-- The workspace is owned, is not one that is being founded, and was not found without an owner.
pub record IsKept (ws : Text) (s : Court) : Type 0 where
  pub owned : IsOwned ws s.team
  pub settled : some_of (text_eq ws) s.founding ≡ false
  pub noticed : some_of (text_eq ws) s.ownerless ≡ false

-- A name on a list that another one is not on.
not_listed :
    (ws other : Text) (xs : List Text)
    → some_of (text_eq ws) xs ≡ false
    → some_of (text_eq other) xs ≡ true
    → text_eq other ws ≡ false
not_listed ws other xs h on = elim (Bool-cases (text_eq other ws)) [
  | inr e ↦ e
  | inl e ↦ absurd (cc (rw ((text_eq_iff other ws).0 e) at on, h))
]

renewed :
    (ws : Text) (s : Court)
    → IsKept ws s
    → {t : Team} → IsOwned ws t
    → IsKept ws (record s { team = t })
renewed ws s k v = record { owned = v; settled = k.settled; noticed = k.noticed }

Request-IsKept : (ws : Text) (s u : Court) → Request s u → IsKept ws s → IsKept ws u
Request-IsKept ws s _ (joins other user role plain) k =
    renewed ws s k (joined ws other user role s.team (λ _. plain) k.owned)
Request-IsKept ws s _ (begins other t e) k =
    let (apart', v) = created ws other s.team t e k.owned in
    record {
      owned = v;
      settled = not_founding ws other s.founding apart' k.settled;
      noticed = k.noticed;
    }
Request-IsKept ws s _ (owns_new other user new) k = record {
  owned =
      joined ws other user owner s.team
        (λ e. absurd (cc (e, not_listed ws other s.founding k.settled new))) k.owned;
  settled = still_not ws (λ x. not (text_eq other x)) s.founding k.settled;
  noticed = k.noticed;
}
Request-IsKept ws s _ (reads_none other missing) k = record {
  owned = k.owned;
  settled = k.settled;
  noticed =
      not_founding ws other s.ownerless
        (elim (Bool-cases (text_eq other ws)) [
          | inr e ↦ e
          | inl e ↦ absurd (cc (rw ((text_eq_iff other ws).0 e) at missing, seen ws s.team k.owned))
        ])
        k.noticed;
}
Request-IsKept ws s _ (adds_user other x had_owner t read e) k = renewed ws s k (
    user_added ws other x had_owner s.team t e
      (λ f. elim (Bool-cases had_owner) [
        | inl h ↦ h
        | inr h ↦ absurd (cc (f, not_listed ws other s.ownerless k.noticed (read h)))
      ])
      k.owned)
Request-IsKept ws s _ (founds other user t e) k =
    renewed ws s k (founded ws other user s.team t e k.owned)
Request-IsKept ws s _ (claims other user won t e) k =
    renewed ws s k (claimed ws other user won s.team t e k.owned)
Request-IsKept ws s _ (leaves other user) k = renewed ws s k (elim (Bool-cases (text_eq other ws)) [
  | inl e ↦
      subst (λ x. IsOwned ws (leave user x s.team).1) (sym ((text_eq_iff other ws).0 e))
        (left_here ws user s.team k.owned)
  | inr e ↦ left_elsewhere ws other user s.team e k.owned
])
Request-IsKept ws s _ (hands_over other from to differ) k =
    renewed ws s k (handed ws other from to s.team differ k.owned)

Reach-IsKept : (ws : Text) (s u : Court) → Reach s u → IsKept ws s → IsKept ws u
Reach-IsKept ws s _ here k = k
Reach-IsKept ws s _ (next {u} {v} r q) k = Request-IsKept ws u v q (Reach-IsKept ws s u r k)

-- A workspace with one owner has exactly one ever after, however the statements of requests overlap that
-- join, found, claim, leave or hand over workspaces or add a user to one. At the start it has a row of
-- its own and one membership at most for a user, and no request is about to give it its first owner.
-- Removing somebody else, deleting a user and purging a workspace are not among the requests.
pub Reach-IsOwned : (ws : Text) (s u : Court) → IsKept ws s → Reach s u → IsOwned ws u.team
Reach-IsOwned ws s u k r = (Reach-IsKept ws s u r k).owned
