-- ===== src/Team/Requests.antt =====
-- packages/db/src/queries/team.ts: the statements of requests that overlap, one after the other.
use inbox_angel_worker.Common.{ℕ, ◌≡◌, Bool, true, false, List, ◌∷◌, some}
use inbox_angel_worker.Text.{Text}
use inbox_angel_worker.Team.{
  Team, Invite, Role, is_unused, claim_ownership, add_member, remove_membership, remove_user,
  insert_invite, claim_invite, revoke_invite, revoke_invites_by, mark_invite_used, delete_user,
}

-- The tables, with the tokens whose claim has succeeded.
pub record Site : Type 0 where
  pub team : Team
  pub claimed : List Text

-- A statement that a request makes on the members, the users or the invites of a workspace. Purges are
-- left out.
pub data Statement (s : Site) : Site → Type 0 where
  claims_ownership :
      (ws user : Text) (won : Bool) (t : Team)
      → claim_ownership ws user s.team ≡ some (won, t)
      → Statement s (record s { team = t })
  adds_member :
      (ws user : Text) (role : Role)
      → Statement s (record s { team = add_member ws user role s.team })
  removes_membership :
      (ws user : Text) → Statement s (record s { team = remove_membership ws user s.team })
  removes_user : (ws user : Text) → Statement s (record s { team = remove_user ws user s.team })
  deletes_user : (user : Text) → Statement s (record s { team = delete_user user s.team })
  inserts_invite :
      (i : Invite) (t : Team)
      → is_unused i ≡ true
      → insert_invite i s.team ≡ some t
      → Statement s (record s { team = t })
  claims_invite :
      (ws token : Text) (now : ℕ)
      → (claim_invite ws token now s.team).0 ≡ true
      → Statement s
          (record s { team = (claim_invite ws token now s.team).1; claimed = token ∷ s.claimed })
  misses_invite :
      (ws token : Text) (now : ℕ)
      → (claim_invite ws token now s.team).0 ≡ false
      → Statement s (record s { team = (claim_invite ws token now s.team).1 })
  revokes_invite :
      (ws token : Text) → Statement s (record s { team = (revoke_invite ws token s.team).1 })
  revokes_by : (ws by : Text) → Statement s (record s { team = revoke_invites_by ws by s.team })
  marks_used :
      (ws token : Text) (now : ℕ)
      → Statement s (record s { team = mark_invite_used ws token now s.team })

pub data Reach (s : Site) : Site → Type 0 where
  here : Reach s s
  next : {u v : Site} → Reach s u → Statement u v → Reach s v
