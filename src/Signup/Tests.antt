-- ===== src/Signup/Tests.antt =====
-- src/auth/signup-policy.ts on a self-host with one invite.
use inbox_angel_worker.Common.{
  ◌≤◌, ◌≡◌, refl, ◌⊎◌, ◌++◌, true, false, [], ◌∷◌, none, some, count, arith,
}
use inbox_angel_worker.Text.{Text, codes, text_eq, trim, to_lower, trim_start, is_space}
use inbox_angel_worker.DnsWrite.{selfhost}
use inbox_angel_worker.Team.{
  Team, Invite, owner, admin, has_owner, claim_ownership, add_member, claim_invite, invite_by_token,
  pending_invite_for_email, delete_user, set_legacy_role, create_workspace,
}
use inbox_angel_worker.Team.Requests.{here, next, claims_invite, misses_invite}
use inbox_angel_worker.Team.Spent.{has_token, Reach-claimed}
use inbox_angel_worker.Signup.{
  external, setup, invite, AuthEnv, NewUser, allowed, refused, rejected, assert_may_sign_up,
  may_join_selfhost, invite_for, provision_user, provision_with, implicit_workspace, closed,
  already_configured,
}
use inbox_angel_worker.Signup.Closed.{IsInvited, assert_may_sign_up-closed}

abbrev an_invite : Invite
an_invite = record {
  token = codes "t1";
  workspace = implicit_workspace;
  email = codes "b@x.test";
  role = codes "admin";
  invited_by = codes "a@x.test";
  created_at = 10;
  expires_at = 100;
  used_at = none;
}

abbrev owned : Team
owned = record {
  workspaces = implicit_workspace ∷ [];
  users = record { id = codes "a"; email = codes "a@x.test"; role = admin } ∷ [];
  memberships = record { workspace = implicit_workspace; user = codes "a"; role = owner } ∷ [];
  invites = an_invite ∷ [];
}

abbrev env : AuthEnv
env = record { mode = selfhost; owner_email = none }

abbrev guest : NewUser
guest = record { id = codes "b"; email = codes "b@x.test"; is_verified = true }

runs : Unit {0}
unfolding assert_may_sign_up may_join_selfhost invite_for provision_user provision_with has_owner
    claim_ownership add_member claim_invite invite_by_token pending_invite_for_email delete_user
    set_legacy_role create_workspace text_eq trim to_lower trim_start is_space
runs = tt

is_owned : has_owner implicit_workspace owned ≡ true
unfolding runs
is_owned = refl

guest_allowed : assert_may_sign_up env 50 external (codes "b@x.test") true owned ≡ allowed
unfolding runs
guest_allowed = refl

unverified_refused :
    assert_may_sign_up env 50 external (codes "b@x.test") false owned ≡ refused closed
unfolding runs
unverified_refused = refl

guest_is_admin :
    (provision_user env 50 51 (codes "ws_1") external guest owned).1.memberships
    ≡ owned.memberships
      ++ record { workspace = implicit_workspace; user = codes "b"; role = admin } ∷ []
unfolding runs
guest_is_admin = refl

-- Who comes second, with no invite, is turned away.
second_owner_refused :
    (provision_user env 50 51 (codes "ws_1") setup guest owned).0 ≡ rejected already_configured
unfolding runs
second_owner_refused = refl

assert_may_sign_up-closed_example :
    (i : Invite) × IsInvited 50 (codes "b@x.test") i
    × (((token : Text) × (external ≡ invite token) × (invite_by_token token owned ≡ some i))
        ⊎ ((external ≡ external)
            × (true ≡ true)
            × (pending_invite_for_email (codes "b@x.test") 50 owned ≡ some i)))
assert_may_sign_up-closed_example =
    assert_may_sign_up-closed env 50 external (codes "b@x.test") true owned refl is_owned
      guest_allowed

claim_wins : (claim_invite implicit_workspace (codes "t1") 50 owned).0 ≡ true
unfolding runs
claim_wins = refl

abbrev after_claim : Team
after_claim = (claim_invite implicit_workspace (codes "t1") 50 owned).1

claim_loses : (claim_invite implicit_workspace (codes "t1") 51 after_claim).0 ≡ false
unfolding runs
claim_loses = refl

one_each : (t : Text) → count (has_token t) owned.invites ≤ 1
one_each t = ground arith

Reach-claimed_example : count (text_eq (codes "t1")) (codes "t1" ∷ []) ≤ 1
Reach-claimed_example =
    Reach-claimed (record { team = owned; claimed = [] })
      (record {
        team = (claim_invite implicit_workspace (codes "t1") 51 after_claim).1;
        claimed = codes "t1" ∷ [];
      })
      (codes "t1") one_each refl
      (next (next here (claims_invite implicit_workspace (codes "t1") 50 claim_wins))
        (misses_invite implicit_workspace (codes "t1") 51 claim_loses))
