-- ===== src/Team/Lifecycle.antt =====
-- packages/db/src/queries/workspaces.ts: a workspace is created, left or handed over. A statement reads
-- and writes the rows of `memberships` at once, and so does a batch.
use inbox_angel_worker.Common.{
  Bool, false, not, ◌&&◌, ◌||◌, List, Option, none, some, if◌then◌else◌, some_of, keep, change,
}
use inbox_angel_worker.Text.{Text, text_eq}
use inbox_angel_worker.Team.{
  Team, Membership, Role, owner, admin, is_owner, is_owner_of, is_member_of, role_of, new_member,
  create_workspace,
}

-- The row of a user that is an owner.
abbrev pub owns : Text → Text → Membership → Bool
owns ws user m = is_member_of ws user m && is_owner m.role

abbrev pub is_other_owner : Text → Text → Membership → Bool
is_other_owner ws user m = is_owner_of ws m && not (text_eq m.user user)

-- `create`. None where the id is taken.
unfoldable pub found_workspace : Text → Text → Team → Option Team
found_workspace ws user t = elim (create_workspace ws t) [
  | none ↦ none
  | some t' ↦ some (new_member ws user owner t')
]

abbrev pub may_go : Text → Text → Bool → Membership → Bool
may_go ws user has_other m = is_member_of ws user m && (not (is_owner m.role) || has_other)

unfoldable pub leave : Text → Text → Team → Bool × Team
leave user ws t =
    let goes = may_go ws user (some_of (is_other_owner ws user) t.memberships) in
    (some_of goes t.memberships, record t { memberships = keep (λ m. not (goes m)) t.memberships })

abbrev pub with_role : Role → Membership → Membership
with_role role m = record m { role = role }

abbrev pub promote : Text → Text → Text → List Membership → List Membership
promote ws from to ms =
    if some_of (owns ws from) ms then change (is_member_of ws to) (with_role owner) ms else ms

abbrev pub demote : Text → Text → Text → List Membership → List Membership
demote ws from to ms =
    if some_of (owns ws to) ms then change (owns ws from) (with_role admin) ms else ms

abbrev pub is_owner_role : Option Role → Bool
is_owner_role none = false
is_owner_role (some role) = is_owner role

unfoldable pub transfer_ownership : Text → Text → Text → Team → Bool × Team
transfer_ownership ws from to t =
    let t' = record t { memberships = demote ws from to (promote ws from to t.memberships) } in
    (is_owner_role (role_of ws to t') && not (is_owner_role (role_of ws from t')), t')
