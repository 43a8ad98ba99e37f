-- ===== src/Team/Tests.antt =====
-- packages/db/src/queries/workspaces.ts: a workspace changes hands, and its first owner leaves.
use inbox_angel_worker.Common.{◌≡◌, refl, true, false, [], ◌∷◌, some, arith}
use inbox_angel_worker.Text.{Text, codes, text_eq}
use inbox_angel_worker.Team.{
  Team, owner, admin, has_owner, role_of, add_member, create_workspace, claim_ownership,
}
use inbox_angel_worker.Team.Lifecycle.{leave, transfer_ownership, found_workspace}
use inbox_angel_worker.Team.Court.{Court, IsOwned, here, next, joins, leaves, hands_over}
use inbox_angel_worker.Team.Owner.{IsKept, Reach-IsOwned}

abbrev shop : Text
shop = codes "ws_default"

abbrev anna : Text
anna = codes "a"

abbrev ben : Text
ben = codes "b"

abbrev annas : Team
annas = record {
  workspaces = shop ∷ [];
  users = [];
  memberships = record { workspace = shop; user = anna; role = owner } ∷ [];
  invites = [];
}

abbrev joined_by_ben : Team
joined_by_ben = add_member shop ben admin annas

abbrev handed_on : Team
handed_on = (transfer_ownership shop anna ben joined_by_ben).1

abbrev left_by_anna : Team
left_by_anna = (leave anna shop handed_on).1

runs : Unit {0}
unfolding leave transfer_ownership found_workspace add_member role_of has_owner create_workspace
    claim_ownership text_eq
runs = tt

bens : left_by_anna.memberships ≡ record { workspace = shop; user = ben; role = owner } ∷ []
unfolding runs
bens = refl

transfer_tells : (transfer_ownership shop anna ben joined_by_ben).0 ≡ true
unfolding runs
transfer_tells = refl

sole_owner_stays : leave anna shop annas ≡ (false, annas)
unfolding runs
sole_owner_stays = refl

-- The routes never hand ownership to the one who has it: the statements would leave no owner.
handed_to_self : has_owner shop (transfer_ownership shop anna anna annas).1 ≡ false
unfolding runs
handed_to_self = refl

new_shop :
    found_workspace (codes "ws_2") ben annas
    ≡ some (record annas {
      workspaces = shop ∷ codes "ws_2" ∷ [];
      memberships =
          record { workspace = shop; user = anna; role = owner }
          ∷ record { workspace = codes "ws_2"; user = ben; role = owner }
          ∷ [];
    })
unfolding runs
new_shop = refl

abbrev before : Court
before = record { team = annas; founding = []; ownerless = [] }

annas_IsKept : IsKept shop before
unfolding runs
annas_IsKept = record {
  owned = record { one = refl; unique = λ u. ground arith; stands = refl };
  settled = refl;
  noticed = refl;
}

two_people : text_eq ben anna ≡ false
unfolding runs
two_people = refl

Reach-IsOwned_example : IsOwned shop left_by_anna
Reach-IsOwned_example =
    Reach-IsOwned shop before (record before { team = left_by_anna }) annas_IsKept
      (next (next (next here (joins shop ben admin refl)) (hands_over shop anna ben two_people))
        (leaves shop anna))
