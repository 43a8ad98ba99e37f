-- ===== src/Team/Court.antt =====
-- packages/db/src/queries/workspaces.ts and team.ts: the requests that make, move or keep owners, as one
-- step relation.
use inbox_angel_worker.Common.{
  ◌≤◌, ◌≡◌, Bool, true, false, not, List, ◌∷◌, some, some_of, keep, count,
}
use inbox_angel_worker.Text.{Text, text_eq}
use inbox_angel_worker.Team.{
  Team, User, Role, owner, is_owner, is_owner_of, is_member_of, has_owner, claim_ownership,
  add_member, add_user, create_workspace,
}
use inbox_angel_worker.Team.Lifecycle.{leave, transfer_ownership, found_workspace}

-- The tables; the workspaces that a sign-up has created and not given an owner yet; and those that
-- `addUser` has found without one.
pub record Court : Type 0 where
  pub team : Team
  pub founding : List Text
  pub ownerless : List Text

-- A statement or a batch of a request that joins, founds, claims, leaves or hands over a workspace, or
-- adds a user to it. A member joins by an invite, which is never for the role of the owner; `addMember`
-- with that role is only for the workspace that the sign-up has just created; ownership is only handed
-- to somebody else. `addUser` reads the owner in a statement of its own. What removes other people's
-- memberships is left out: it may take the owner away.
pub data Request (s : Court) : Court → Type 0 where
  joins :
      (ws user : Text) (role : Role)
      → is_owner role ≡ false
      → Request s (record s { team = add_member ws user role s.team })
  begins :
      (ws : Text) (t : Team)
      → create_workspace ws s.team ≡ some t
      → Request s (record s { team = t; founding = ws ∷ s.founding })
  owns_new :
      (ws user : Text)
      → some_of (text_eq ws) s.founding ≡ true
      → Request s (record s {
        team = add_member ws user owner s.team;
        founding = keep (λ x. not (text_eq ws x)) s.founding;
      })
  reads_none :
      (ws : Text)
      → has_owner ws s.team ≡ false
      → Request s (record s { ownerless = ws ∷ s.ownerless })
  adds_user :
      (ws : Text) (u : User) (had_owner : Bool) (t : Team)
      → (had_owner ≡ false → some_of (text_eq ws) s.ownerless ≡ true)
      → add_user ws u had_owner s.team ≡ some t
      → Request s (record s { team = t })
  founds :
      (ws user : Text) (t : Team)
      → found_workspace ws user s.team ≡ some t
      → Request s (record s { team = t })
  claims :
      (ws user : Text) (won : Bool) (t : Team)
      → claim_ownership ws user s.team ≡ some (won, t)
      → Request s (record s { team = t })
  leaves : (ws user : Text) → Request s (record s { team = (leave user ws s.team).1 })
  hands_over :
      (ws from to : Text)
      → text_eq to from ≡ false
      → Request s (record s { team = (transfer_ownership ws from to s.team).1 })

pub data Reach (s : Court) : Court → Type 0 where
  here : Reach s s
  next : {u v : Court} → Reach s u → Request u v → Reach s v

-- The workspace stands, with one owner and no two rows for a user.
pub record IsOwned (ws : Text) (t : Team) : Type 0 where
  pub one : count (is_owner_of ws) t.memberships ≡ 1
  pub unique : (user : Text) → count (is_member_of ws user) t.memberships ≤ 1
  pub stands : some_of (text_eq ws) t.workspaces ≡ true
