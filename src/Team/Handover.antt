-- ===== src/Team/Handover.antt =====
-- packages/db/src/queries/workspaces.ts and team.ts: the owner of a workspace, whatever requests overlap.
use inbox_angel_worker.Common.{
  ◌+◌, ◌≤◌, ◌≡◌, refl, ◌∙◌, Bool, true, false, not, ◌&&◌, List, [], ◌∷◌, some_of, keep, change,
  count, arith, Bool-cases, inl, inr, ap,
}
use inbox_angel_worker.Text.{Text, text_eq}
use inbox_angel_worker.Text.Equal.{text_eq_iff}
use inbox_angel_worker.Team.{Membership, Role, owner, admin, is_owner_of, is_member_of}
use inbox_angel_worker.Team.Lifecycle.{owns, is_other_owner, may_go, with_role, promote, demote}

-- A test that holds of some rows counts one.
pub some_count :
    (p : Membership → Bool) (xs : List Membership) → some_of p xs ≡ true → 1 ≤ count p xs
some_count p [] h = absurd (cc h)
some_count p (x ∷ xs) h = elim (Bool-cases (p x)) [
  | inl e ↦ ground (arith, e)
  | inr e ↦ ground (arith, e, some_count p xs (rw e at h))
]

-- Where no row passes, none is changed.
pub change_none :
    (q : Membership → Bool) (f : Membership → Membership) (ms : List Membership)
    → some_of q ms ≡ false
    → change q f ms ≡ ms
change_none q f [] h = refl
change_none q f (m ∷ ms) h = elim (Bool-cases (q m)) [
  | inl e ↦ absurd (cc (rw e at h))
  | inr e ↦ rw e (ap (λ x. m ∷ x) (change_none q f ms (rw e at h)))
]

-- Rows of which the test says the same before and after.
pub change_same :
    (p q : Membership → Bool) (f : Membership → Membership)
    → ((m : Membership) → q m ≡ true → p (f m) ≡ p m)
    → (ms : List Membership) → count p (change q f ms) ≡ count p ms
change_same p q f same [] = refl
change_same p q f same (m ∷ ms) = elim (Bool-cases (q m)) [
  | inl e ↦ rw (e, same m e, change_same p q f same ms) refl
  | inr e ↦ rw (e, change_same p q f same ms) refl
]

pub keep_same :
    (p q : Membership → Bool)
    → ((m : Membership) → q m ≡ false → p m ≡ false)
    → (ms : List Membership) → count p (keep q ms) ≡ count p ms
keep_same p q same [] = refl
keep_same p q same (m ∷ ms) = elim (Bool-cases (q m)) [
  | inl e ↦ rw e (ground (arith, keep_same p q same ms))
  | inr e ↦ rw (e, same m e) (keep_same p q same ms)
]

-- A text is one of two that differ.
pub apart :
    (to from : Text)
    → text_eq to from ≡ false
    → (user : Text) → text_eq user to ≡ true
    → text_eq user from ≡ false
apart to from differ user h = elim (Bool-cases (text_eq user from)) [
  | inr e ↦ e
  | inl e ↦ absurd (cc (rw ((text_eq_iff user to).0 h) at e, differ))
]

module _ (ws from to : Text) (differ : text_eq to from ≡ false) where
  -- The owners but the two of a handover.
  abbrev rest_of : Membership → Bool
  rest_of m = is_other_owner ws from m && not (text_eq m.user to)

  handed_count :
      (ms : List Membership)
      → count (is_owner_of ws) (
          change
            (owns ws from)
            (with_role admin)
            (change (is_member_of ws to) (with_role owner) ms))
        ≡ count rest_of ms + count (is_member_of ws to) ms
  handed_count [] = refl
  handed_count (m ∷ ms) = elim (Bool-cases (text_eq m.user to)) [
    | inl e ↦ ground (arith, e, apart to from differ m.user e, handed_count ms)
    | inr e ↦ ground (arith, e, handed_count ms)
  ]

  rest_le :
      (ms : List Membership)
      → count rest_of ms + count (owns ws from) ms ≤ count (is_owner_of ws) ms
  rest_le [] = omega arith
  rest_le (m ∷ ms) = ground (arith, rest_le ms)

  promoted_owns :
      (ms : List Membership)
      → some_of (owns ws to) (change (is_member_of ws to) (with_role owner) ms)
        ≡ some_of (is_member_of ws to) ms
  promoted_owns [] = refl
  promoted_owns (m ∷ ms) = ground (arith, promoted_owns ms)

  pub handed_one :
      (ms : List Membership)
      → count (is_owner_of ws) ms ≡ 1
      → count (is_member_of ws to) ms ≤ 1
      → count (is_owner_of ws) (demote ws from to (promote ws from to ms)) ≡ 1
  handed_one ms one unique = elim (Bool-cases (some_of (owns ws from) ms)) [
    | inr e ↦ rw e (elim (Bool-cases (some_of (owns ws to) ms)) [
      | inl k ↦ rw (k, change_none (owns ws from) (with_role admin) ms e) one
      | inr k ↦ rw k one
    ])
    | inl e ↦
        rw (e, promoted_owns ms)
          (elim (Bool-cases (some_of (is_member_of ws to) ms)) [
            | inl k ↦
                rw (k, handed_count ms)
                  (omega (
                    arith,
                    one,
                    unique,
                    rest_le ms,
                    some_count (owns ws from) ms e,
                    some_count (is_member_of ws to) ms k,
                  ))
            | inr k ↦ rw (k, change_none (is_member_of ws to) (with_role owner) ms k) one
          ])
  ]

-- A row of another workspace, whatever role it gets.
role_elsewhere :
    (ws other : Text) (role : Role) (m : Membership)
    → text_eq other ws ≡ false
    → text_eq m.workspace other ≡ true
    → is_owner_of ws (with_role role m) ≡ is_owner_of ws m
role_elsewhere ws other role m e h = rw (apart other ws e m.workspace h) refl

promoted_same :
    (p : Membership → Bool) (ws from to : Text)
    → ((m : Membership) → is_member_of ws to m ≡ true → p (with_role owner m) ≡ p m)
    → (ms : List Membership) → count p (promote ws from to ms) ≡ count p ms
promoted_same p ws from to same ms = elim (Bool-cases (some_of (owns ws from) ms)) [
  | inl e ↦ rw e (change_same p (is_member_of ws to) (with_role owner) same ms)
  | inr e ↦ rw e refl
]

demoted_same :
    (p : Membership → Bool) (ws from to : Text)
    → ((m : Membership) → owns ws from m ≡ true → p (with_role admin m) ≡ p m)
    → (ms : List Membership) → count p (demote ws from to ms) ≡ count p ms
demoted_same p ws from to same ms = elim (Bool-cases (some_of (owns ws to) ms)) [
  | inl e ↦ rw e (change_same p (owns ws from) (with_role admin) same ms)
  | inr e ↦ rw e refl
]

pub handed_elsewhere :
    (ws other from to : Text)
    → text_eq other ws ≡ false
    → (ms : List Membership)
    → count (is_owner_of ws) (demote other from to (promote other from to ms))
      ≡ count (is_owner_of ws) ms
handed_elsewhere ws other from to e ms =
    demoted_same (is_owner_of ws) other from to
      (λ m h. role_elsewhere ws other admin m e (ground (arith, h))) (promote other from to ms)
    ∙ promoted_same (is_owner_of ws) other from to
        (λ m h. role_elsewhere ws other owner m e (ground (arith, h))) ms

pub handed_members :
    (ws other from to user : Text) (ms : List Membership)
    → count (is_member_of ws user) (demote other from to (promote other from to ms))
      ≡ count (is_member_of ws user) ms
handed_members ws other from to user ms =
    demoted_same (is_member_of ws user) other from to (λ m h. refl) (promote other from to ms)
    ∙ promoted_same (is_member_of ws user) other from to (λ m h. refl) ms

module _ (ws user : Text) where
  owners_split :
      (ms : List Membership)
      → count (is_owner_of ws) ms ≡ count (is_other_owner ws user) ms + count (owns ws user) ms
  owners_split [] = refl
  owners_split (m ∷ ms) = ground (arith, owners_split ms)

  left_others :
      (ms : List Membership)
      → count (is_owner_of ws) (keep (λ m. not (may_go ws user true m)) ms)
        ≡ count (is_other_owner ws user) ms
  left_others [] = refl
  left_others (m ∷ ms) = ground (arith, left_others ms)

  -- The sole owner stays, and another owner is left behind.
  pub left_one :
      (ms : List Membership)
      → count (is_owner_of ws) ms ≡ 1
      → count
          (is_owner_of ws)
          (keep (λ m. not (may_go ws user (some_of (is_other_owner ws user) ms) m)) ms)
        ≡ 1
  left_one ms one = elim (Bool-cases (some_of (is_other_owner ws user) ms)) [
    | inl e ↦
        rw (e, left_others ms)
          (omega (arith, one, owners_split ms, some_count (is_other_owner ws user) ms e))
    | inr e ↦
        rw
          (
            e,
            keep_same (is_owner_of ws) (λ m. not (may_go ws user false m))
                (λ m h. ground (arith, h)) ms,
          )
          one
  ]
