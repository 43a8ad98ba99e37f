-- ===== src/Team.antt =====
-- packages/db/src/queries/team.ts and auth.ts: users, memberships and invites. A table is a list of rows.
-- Deleting a user deletes the memberships too (a foreign key); its sessions and keys are left out.
pub mod Requests
pub mod Spent
pub mod Lifecycle
pub mod Handover
pub mod Court
pub mod Owned
pub mod Owner
mod Tests
use inbox_angel_worker.Common.{
  ℕ, suc, ◌+◌, Bool, true, false, not, ◌&&◌, ◌||◌, List, [], ◌∷◌, ◌++◌, Option, none, some, ltb,
  ◌==◌, if◌then◌else◌, some_of, keep, find, change, map,
}
use inbox_angel_worker.Text.{Text, text_eq}

pub data Role : Type 0 where
  owner admin member : Role

pub record Membership : Type 0 where
  pub workspace : Text
  pub user : Text
  pub role : Role

pub record User : Type 0 where
  pub id : Text
  pub email : Text
  pub role : Role

pub record Invite : Type 0 where
  pub token : Text
  pub workspace : Text
  pub email : Text
  pub role : Text
  pub invited_by : Text
  pub created_at : ℕ
  pub expires_at : ℕ
  pub used_at : Option ℕ

pub record Team : Type 0 where
  pub workspaces : List Text
  pub users : List User
  pub memberships : List Membership
  pub invites : List Invite

abbrev pub is_owner : Role → Bool
is_owner owner = true
is_owner _ = false

abbrev pub is_plain : Role → Bool
is_plain member = true
is_plain _ = false

abbrev pub is_unused : Invite → Bool
is_unused i = elim i.used_at [ none ↦ true | some _ ↦ false ]

abbrev pub in_workspace : Text → Membership → Bool
in_workspace ws m = text_eq m.workspace ws

abbrev pub is_owner_of : Text → Membership → Bool
is_owner_of ws m = text_eq m.workspace ws && is_owner m.role

abbrev pub is_member_of : Text → Text → Membership → Bool
is_member_of ws user m = text_eq m.workspace ws && text_eq m.user user

unfoldable pub has_owner : Text → Team → Bool
has_owner ws t = some_of (is_owner_of ws) t.memberships

unfoldable pub role_of : Text → Text → Team → Option Role
role_of ws user t = elim (find (is_member_of ws user) t.memberships) [
  | none ↦ none
  | some m ↦ some m.role
]

abbrev pub new_member : Text → Text → Role → Team → Team
new_member ws user role t = record t {
  memberships = t.memberships ++ record { workspace = ws; user = user; role = role } ∷ [];
}

-- One statement. None where the user is a member already: the primary key refuses the row.
unfoldable pub claim_ownership : Text → Text → Team → Option (Bool × Team)
claim_ownership ws user t =
    if has_owner ws t
    then some (false, t)
    else if some_of (is_member_of ws user) t.memberships
    then none
    else some (true, new_member ws user owner t)

unfoldable pub add_member : Text → Text → Role → Team → Team
add_member ws user role t =
    if some_of (is_member_of ws user) t.memberships then t else new_member ws user role t

-- The role that `addUser` gives, by whether the workspace had an owner when it was read.
abbrev pub added_role : Bool → Bool → Role
added_role false had_owner = member
added_role true had_owner = if had_owner then admin else owner

-- None where an id or an address is not new.
unfoldable pub add_user : Text → User → Bool → Team → Option Team
add_user ws u had_owner t =
    let is_admin = not (is_plain u.role) in
    if some_of (λ v. text_eq v.id u.id || text_eq v.email u.email) t.users
      || some_of (is_member_of ws u.id) t.memberships
    then none
    else some (
        new_member ws u.id (added_role is_admin had_owner) (record t { users = t.users ++ u ∷ [] }))

unfoldable pub remove_membership : Text → Text → Team → Team
remove_membership ws user t = record t {
  memberships = keep (λ m. not (is_member_of ws user m)) t.memberships;
}

abbrev pub drop_user : Text → Team → Team
drop_user user t = record t {
  users = keep (λ u. not (text_eq u.id user)) t.users;
  memberships = keep (λ m. not (text_eq m.user user)) t.memberships;
}

-- The user goes too once they belong to no workspace.
unfoldable pub remove_user : Text → Text → Team → Team
remove_user ws user t =
    let left = remove_membership ws user t in
    if some_of (λ m. text_eq m.user user) left.memberships then left else drop_user user left

abbrev pub is_invite : Text → Text → Invite → Bool
is_invite ws token i = text_eq i.workspace ws && text_eq i.token token

unfoldable pub get_invite : Text → Text → Team → Option Invite
get_invite ws token t = find (is_invite ws token) t.invites

-- None where the token is not new: it is the primary key.
unfoldable pub insert_invite : Invite → Team → Option Team
insert_invite i t =
    if some_of (λ j. text_eq j.token i.token) t.invites
    then none
    else some (record t { invites = t.invites ++ i ∷ [] })

abbrev pub is_open : Text → Text → ℕ → Invite → Bool
is_open ws token now i = is_invite ws token i && (is_unused i && ltb now i.expires_at)

-- One conditional update, and whether it changed a row.
unfoldable pub claim_invite : Text → Text → ℕ → Team → Bool × Team
claim_invite ws token now t = (
  some_of (is_open ws token now) t.invites,
  record t {
    invites = change (is_open ws token now) (λ i. record i { used_at = some now }) t.invites;
  },
)

unfoldable pub revoke_invite : Text → Text → Team → Bool × Team
revoke_invite ws token t = (
  some_of (λ i. is_invite ws token i && is_unused i) t.invites,
  record t { invites = keep (λ i. not (is_invite ws token i && is_unused i)) t.invites },
)

unfoldable pub revoke_invites_by : Text → Text → Team → Team
revoke_invites_by ws inviter t = record t {
  invites =
      keep (λ i. not (text_eq i.workspace ws && (text_eq i.invited_by inviter && is_unused i)))
        t.invites;
}

unfoldable pub mark_invite_used : Text → Text → ℕ → Team → Team
mark_invite_used ws token now t = record t {
  invites = change (is_invite ws token) (λ i. record i { used_at = some now }) t.invites;
}

-- Invites by their token, in any workspace.
unfoldable pub invite_by_token : Text → Team → Option Invite
invite_by_token token t = find (λ i. text_eq i.token token) t.invites

abbrev pub earlier : Invite → Option Invite → Invite
earlier i none = i
earlier i (some j) = if ltb j.created_at i.created_at then j else i

-- `orderBy(asc(created_at)).limit(1)`.
abbrev pub oldest : List Invite → Option Invite
oldest [] = none
oldest (i ∷ is) = some (earlier i (oldest is))

unfoldable pub pending_invite_for_email : Text → ℕ → Team → Option Invite
pending_invite_for_email email now t =
    oldest (keep (λ i. text_eq i.email email && (is_unused i && ltb now i.expires_at)) t.invites)

-- Of the queries on all users.
unfoldable pub delete_user : Text → Team → Team
delete_user user t = drop_user user t

unfoldable pub set_legacy_role : Text → Role → Team → Team
set_legacy_role user role t = record t {
  users = change (λ u. text_eq u.id user) (λ u. record u { role = role }) t.users;
}

-- None where the id is taken: the primary key refuses the row.
unfoldable pub create_workspace : Text → Team → Option Team
create_workspace ws t =
    if some_of (text_eq ws) t.workspaces
    then none
    else some (record t { workspaces = t.workspaces ++ ws ∷ [] })
