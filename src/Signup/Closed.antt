-- ===== src/Signup/Closed.antt =====
-- src/auth/signup-policy.ts: a self-host with an owner is closed to whoever holds no invite.
use mathlib.Core.Path.{subst}
use inbox_angel_worker.Common.{
  ℕ, ◌≤◌, ◌≡◌, refl, Bool, true, false, Option, none, some, arith, Bool-cases, inl, inr, ◌⊎◌,
  some_inj,
}
use inbox_angel_worker.Text.{Text, text_eq}
use inbox_angel_worker.DnsWrite.{selfhost}
use inbox_angel_worker.Team.{Team, Invite, has_owner, invite_by_token, pending_invite_for_email}
use inbox_angel_worker.Signup.{
  Intent, external, setup, signup, invite, invitee, AuthEnv, allowed, invite_for, if_live, is_dead,
  is_used, assert_may_sign_up, may_join_selfhost, need_invite, closed, invite_missing,
  implicit_workspace,
}

-- A live invite for the address.
pub record IsInvited (now : ℕ) (email : Text) (i : Invite) : Type 0 where
  pub unused : is_used i.used_at ≡ false
  pub not_over : now ≤ i.expires_at
  pub addressed : text_eq i.email email ≡ true

live-IsInvited :
    (now : ℕ) (email : Text) (o : Option Invite) (i : Invite)
    → if_live now email o ≡ some i
    → IsInvited now email i × (o ≡ some i)
live-IsInvited now email none i h = absurd (cc h)
live-IsInvited now email (some j) i h = elim (Bool-cases (is_dead now email j)) [
  | inl e ↦ absurd (cc (rw e at h))
  | inr e ↦
      let same : j ≡ i = some_inj (rw e at h) in
      (subst (IsInvited now email) same (alive e), rw same refl)
]
  where
    alive : is_dead now email j ≡ false → IsInvited now email j
    alive e = record {
      unused = ground (arith, e);
      not_over = ground (arith, e);
      addressed = ground (arith, e);
    }

pub invite_for-IsInvited :
    (now : ℕ) (intent : Intent) (email : Text) (is_verified : Bool) (t : Team) (i : Invite)
    → invite_for now intent email is_verified t ≡ some i
    → IsInvited now email i
unfolding invite_for
invite_for-IsInvited now external email true t i h =
    (live-IsInvited now email (pending_invite_for_email email now t) i h).0
invite_for-IsInvited now external email false t i h = absurd (cc h)
invite_for-IsInvited now setup email b t i h = absurd (cc h)
invite_for-IsInvited now signup email b t i h = absurd (cc h)
invite_for-IsInvited now (invite token) email b t i h =
    (live-IsInvited now email (invite_by_token token t) i h).0
invite_for-IsInvited now (invitee token) email b t i h = absurd (cc h)

-- On a self-host that has an owner, only a person with a live invite for their address may sign up: by
-- its token, or, from an OAuth provider, with an address that the provider has verified.
pub assert_may_sign_up-closed :
    (env : AuthEnv) (now : ℕ) (intent : Intent) (email : Text) (is_verified : Bool) (t : Team)
    → env.mode ≡ selfhost
    → has_owner implicit_workspace t ≡ true
    → assert_may_sign_up env now intent email is_verified t ≡ allowed
    → (i : Invite) × IsInvited now email i
      × (((token : Text) × (intent ≡ invite token) × (invite_by_token token t ≡ some i))
          ⊎ ((intent ≡ external)
              × (is_verified ≡ true)
              × (pending_invite_for_email email now t ≡ some i)))
unfolding assert_may_sign_up may_join_selfhost invite_for
assert_may_sign_up-closed env now (invitee token) email b t m o h = absurd (cc (rw m at h))
assert_may_sign_up-closed env now setup email b t m o h = absurd (cc (rw o at (rw m at h)))
assert_may_sign_up-closed env now signup email b t m o h = absurd (cc (rw m at h))
assert_may_sign_up-closed env now external email false t m o h = absurd (cc (rw o at (rw m at h)))
assert_may_sign_up-closed env now external email true t m o h =
    from (if_live now email (pending_invite_for_email email now t)) refl (rw o at (rw m at h))
  where
    from :
        (r : Option Invite)
        → if_live now email (pending_invite_for_email email now t) ≡ r
        → need_invite closed r ≡ allowed
        → (i : Invite) × IsInvited now email i
          × (((token : Text) × (external ≡ invite token) × (invite_by_token token t ≡ some i))
              ⊎ ((external ≡ external)
                  × (true ≡ true)
                  × (pending_invite_for_email email now t ≡ some i)))
    from none e k = absurd (cc k)
    from (some i) e k =
        let live = live-IsInvited now email (pending_invite_for_email email now t) i e in
        (i, live.0, inr (refl, refl, live.1))
assert_may_sign_up-closed env now (invite token) email b t m o h =
    from (if_live now email (invite_by_token token t)) refl h
  where
    from :
        (r : Option Invite)
        → if_live now email (invite_by_token token t) ≡ r
        → need_invite invite_missing r ≡ allowed
        → (i : Invite) × IsInvited now email i
          × (((token' : Text) × (invite token ≡ invite token')
                × (invite_by_token token' t ≡ some i))
              ⊎ ((invite token ≡ external)
                  × (b ≡ true)
                  × (pending_invite_for_email email now t ≡ some i)))
    from none e k = absurd (cc k)
    from (some i) e k =
        let live = live-IsInvited now email (invite_by_token token t) i e in
        (i, live.0, inl (token, refl, live.1))
