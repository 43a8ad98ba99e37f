-- ===== src/Signup/Placed.antt =====
-- src/auth/signup-policy.ts: what `provisionUser` gives a new user.
use inbox_angel_worker.Common.{
  ℕ, ◌≡◌, ◌≢◌, true, false, some_of, ◌++◌, [], ◌∷◌, List, if◌then◌else◌, ◌⊎◌,
}
use inbox_angel_worker.Text.{Text, text_eq}
use inbox_angel_worker.DnsWrite.{saas, selfhost}
use inbox_angel_worker.Team.{
  Membership, is_member_of, Team, Invite, Role, owner, has_owner, claim_invite,
}
use inbox_angel_worker.Signup.{AuthEnv, NewUser, implicit_workspace}
use inbox_angel_worker.Signup.Closed.{IsInvited}

-- The memberships with a row for a user, where the workspace has none of theirs.
abbrev pub with_member : Text → Text → Role → List Membership → List Membership
with_member ws user role ms =
    if some_of (is_member_of ws user) ms
    then ms
    else ms ++ record { workspace = ws; user = user; role = role } ∷ []

-- The ways into a workspace, with the tables they leave: an invite for the address, claimed just then; a
-- workspace of their own, whose id was free; or the workspace of a self-host that has no owner.
abbrev pub IsEntitled : AuthEnv → ℕ → ℕ → Text → NewUser → Team → Text → Role → Team → Type 0
IsEntitled env read now fresh u t ws role t' =
    (t'.memberships ≡ with_member ws u.id role t.memberships)
    × (((i : Invite) × IsInvited read u.email i
          × (i.workspace ≡ ws)
          × (role ≢ owner)
          × ((claim_invite ws i.token now t).0 ≡ true)
          × (t'.invites ≡ (claim_invite ws i.token now t).1.invites))
        ⊎ (((env.mode ≡ saas)
              × (ws ≡ fresh)
              × (role ≡ owner)
              × (some_of (text_eq fresh) t.workspaces ≡ false))
            ⊎ ((env.mode ≡ selfhost)
                × (role ≡ owner)
                × (ws ≡ implicit_workspace)
                × (has_owner implicit_workspace t ≡ false))))
