-- ===== src/Signup.antt =====
-- src/auth/signup-policy.ts: who may create a user, and where the new user lands. The rows are those of
-- Team; the clock is read for each statement that uses it, and the name of a new workspace comes from
-- outside. An exception of the database is a value.
pub mod Closed
pub mod Placed
mod Tests
use inbox_angel_worker.Common.{
  ℕ, Bool, true, false, not, ◌&&◌, ◌||◌, [], Option, none, some, ltb, ◌==◌, if◌then◌else◌,
}
use inbox_angel_worker.Text.{Text, codes, text_eq, trim, to_lower, is_empty}
use inbox_angel_worker.DnsWrite.{Mode, saas, selfhost}
use inbox_angel_worker.Team.{
  Team, Invite, Role, owner, admin, member, has_owner, claim_ownership, add_member, claim_invite,
  invite_by_token, pending_invite_for_email, delete_user, set_legacy_role, create_workspace,
}

pub data Intent : Type 0 where
  external setup signup : Intent
  invite invitee : Text → Intent

abbrev pub implicit_workspace : Text
implicit_workspace = codes "ws_default"

-- `used_at` counts unless it is missing or 0.
abbrev pub is_used : Option ℕ → Bool
is_used none = false
is_used (some t) = not (t == 0)

abbrev pub is_dead : ℕ → Text → Invite → Bool
is_dead now email i = is_used i.used_at || (ltb i.expires_at now || not (text_eq i.email email))

abbrev pub if_live : ℕ → Text → Option Invite → Option Invite
if_live now email none = none
if_live now email (some i) = if is_dead now email i then none else some i

unfoldable pub invite_for : ℕ → Intent → Text → Bool → Team → Option Invite
invite_for now external email true t = if_live now email (pending_invite_for_email email now t)
invite_for now external email false t = none
invite_for now (invite token) email _ t = if_live now email (invite_by_token token t)
invite_for now _ email _ t = none

pub data Refusal : Type 0 where
  invite_missing sign_up_instead closed reserved already_configured : Refusal

pub data Decision : Type 0 where
  allowed : Decision
  refused : Refusal → Decision

pub record AuthEnv : Type 0 where
  pub mode : Mode
  pub owner_email : Option Text

-- The claimant where one is configured.
abbrev pub is_reserved : Option Text → Text → Bool
is_reserved none email = false
is_reserved (some o) email =
    let claimant = to_lower (trim o) in
    not (is_empty claimant) && not (text_eq claimant (to_lower email))

abbrev pub need_invite : Refusal → Option Invite → Decision
need_invite r none = refused r
need_invite r (some _) = allowed

abbrev pub no_owner_yet : AuthEnv → Text → Decision
no_owner_yet env email = if is_reserved env.owner_email email then refused reserved else allowed

-- A self-host, from the test of the owner on.
unfoldable pub may_join_selfhost : AuthEnv → ℕ → Intent → Text → Bool → Team → Decision
may_join_selfhost env now intent email is_verified t =
    if has_owner implicit_workspace t
    then elim intent [
      | setup ↦ refused already_configured
      | other ↦ need_invite closed (invite_for now other email is_verified t)
    ]
    else no_owner_yet env email

abbrev pub may_accept : ℕ → Mode → Text → Option Invite → Decision
may_accept now selfhost email _ = refused invite_missing
may_accept now saas email o = need_invite invite_missing (if_live now email o)

abbrev pub may_join : AuthEnv → ℕ → Mode → Intent → Text → Bool → Team → Decision
may_join env now saas setup email _ t = refused sign_up_instead
may_join env now saas _ email _ t = allowed
may_join env now selfhost signup email _ t = refused closed
may_join env now selfhost intent email is_verified t =
    may_join_selfhost env now intent email is_verified t

unfoldable pub assert_may_sign_up : AuthEnv → ℕ → Intent → Text → Bool → Team → Decision
assert_may_sign_up env now (invitee token) email _ t =
    may_accept now env.mode email (invite_by_token token t)
assert_may_sign_up env now (invite token) email is_verified t =
    need_invite invite_missing (invite_for now (invite token) email is_verified t)
assert_may_sign_up env now external email is_verified t =
    may_join env now env.mode external email is_verified t
assert_may_sign_up env now setup email is_verified t =
    may_join env now env.mode setup email is_verified t
assert_may_sign_up env now signup email is_verified t =
    may_join env now env.mode signup email is_verified t

pub data Outcome : Type 0 where
  placed : Text → Role → Outcome
  -- An account in no workspace.
  unplaced : Outcome
  rejected : Refusal → Outcome
  db_error : Outcome

pub record NewUser : Type 0 where
  pub id : Text
  pub email : Text
  pub is_verified : Bool

abbrev pub fail : NewUser → Refusal → Team → Outcome × Team
fail u r t = (rejected r, delete_user u.id t)

abbrev pub legacy_role : Role → Role
legacy_role member = member
legacy_role _ = admin

abbrev pub invited_role : Text → Role
invited_role r = if text_eq r (codes "admin") then admin else member

abbrev pub place : NewUser → Text → Role → Team → Outcome × Team
place u ws role t = (placed ws role, set_legacy_role u.id (legacy_role role) t)

abbrev pub join_claimed : NewUser → Invite → Bool × Team → Outcome × Team
join_claimed u i (false, t) = fail u invite_missing t
join_claimed u i (true, t) =
    place u i.workspace (invited_role i.role) (add_member i.workspace u.id (invited_role i.role) t)

abbrev pub crown : NewUser → Team → Option (Bool × Team) → Outcome × Team
crown u t none = (db_error, t)
crown u t (some (false, t')) = fail u already_configured t'
crown u t (some (true, t')) = place u implicit_workspace owner t'

abbrev pub own_new : NewUser → Text → Team → Option Team → Outcome × Team
own_new u fresh t none = (db_error, t)
own_new u fresh t (some t') = place u fresh owner (add_member fresh u.id owner t')

abbrev pub found : NewUser → Text → Mode → Team → Outcome × Team
found u fresh saas t = own_new u fresh t (create_workspace fresh t)
found u fresh selfhost t = crown u t (claim_ownership implicit_workspace u.id t)

-- `provisionUser` after the invite is read: `now` is the time of the claim.
unfoldable pub provision_with :
    AuthEnv → ℕ → Text → Intent → NewUser → Option Invite → Team → Outcome × Team
provision_with env now fresh intent u (some i) t =
    join_claimed u i (claim_invite i.workspace i.token now t)
provision_with env now fresh (invite token) u none t = fail u invite_missing t
provision_with env now fresh intent u none t = found u fresh env.mode t

unfoldable pub provision_user : AuthEnv → ℕ → ℕ → Text → Intent → NewUser → Team → Outcome × Team
provision_user env read now fresh (invitee token) u t = (unplaced, set_legacy_role u.id member t)
provision_user env read now fresh intent u t =
    provision_with env now fresh intent u (invite_for read intent u.email u.is_verified t) t
