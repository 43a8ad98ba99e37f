-- ===== src/Intake/Routes.antt =====
-- src/hosted/canary.ts: an address of the free check is good for one email.
use inbox_angel_worker.Common.{
  ℕ, ◌+◌, ◌≤◌, ◌≡◌, Bool, true, false, ◌&&◌, List, [], ◌∷◌, Option, none, some, ltb, if◌then◌else◌,
  some_of, change, count, arith, Bool-cases, inl, inr,
}
use inbox_angel_worker.Text.{Text, codes, text_eq}
use inbox_angel_worker.Text.Equal.{text_eq_iff}
use inbox_angel_worker.RateLimit.{Window, Windows, hit}
use inbox_angel_worker.Intake.{Usage, charge}
use inbox_angel_worker.Intake.Address.{ParsedRecipient, ReportKind, parse_recipient}
use inbox_angel_worker.Intake.Mail.{
  Config, Message, Clock, Post, Outcome, checked, rejected, busy, too_many, IntakeToken,
  CanaryToken, is_open, consume_canary, check_limits, after_consume, shaped_tag, check_tag,
  handle_canary_email, slot_of, after_charge, with_token, with_tag, kind_of, with_kind,
  unknown_recipient, unknown_token, too_large, Rejection, route, with_domains, handle_hosted_email,
  resolve_token, max_report_bytes, max_canary_bytes, canary_bucket, canary_limit, canary_window,
}

abbrev is_unused : Text → CanaryToken → Bool
is_unused hash t = text_eq t.hash hash && elim t.used_at [ none ↦ true | some _ ↦ false ]

abbrev unused : Text → List CanaryToken → ℕ
unused hash ts = count (is_unused hash) ts

unused_change :
    (h : Text) (test : CanaryToken → Bool) (now : ℕ) (ts : List CanaryToken)
    → unused h (change test (λ t. record t { used_at = some now }) ts) ≤ unused h ts
unused_change h test now [] = omega arith
unused_change h test now (t ∷ ts) = ground (arith, unused_change h test now ts)

unused_spent :
    (h : Text) (now : ℕ) (ts : List CanaryToken)
    → some_of (is_open h now) ts ≡ true
    → unused h (change (is_open h now) (λ t. record t { used_at = some now }) ts) + 1 ≤ unused h ts
unused_spent h now [] e = absurd (cc e)
unused_spent h now (t ∷ ts) e = elim (Bool-cases (is_open h now t)) [
  | inl k ↦ ground (arith, k, unused_change h (is_open h now) now ts)
  | inr k ↦ ground (arith, k, unused_spent h now ts (rw k at e))
]

module _ (hash : Text → Text) (tag : Text) where
  -- A free check that the token of the tag has paid for.
  abbrev pub is_check : Outcome → Bool
  is_check (checked t) = text_eq t tag
  is_check _ = false

  abbrev Costs : ℕ → Outcome × Post → Type 0
  Costs n r = (if is_check r.0 then 1 else 0) + unused (hash tag) r.1.canaries ≤ n

  abbrev Spends : Post → Outcome × Post → Type 0
  Spends p r = Costs (unused (hash tag) p.canaries) r

  choose :
      (n : ℕ) (b : Bool) (x y : Outcome × Post)
      → Costs n x
      → Costs n y
      → Costs n (if b then x else y)
  choose n true x y sx sy = sx
  choose n false x y sx sy = sy

  refused-Costs :
      (n : ℕ) (o : Rejection) (p : Post)
      → unused (hash tag) p.canaries ≤ n
      → Costs n (rejected o, p)
  refused-Costs n o p h = omega (arith, h)

  refused-Spends : (o : Rejection) (p : Post) → Spends p (rejected o, p)
  refused-Spends o p = omega arith

  checked-Costs :
      (n : ℕ) (t : Text) (p : Post)
      → unused (hash tag) p.canaries + (if text_eq t tag then 1 else 0) ≤ n
      → Costs n (checked t, p)
  checked-Costs n t p h = omega (arith, h)

  limits-Costs :
      (m : Message) (now : Clock) (t : Text) (p : Post) (n : ℕ)
      → unused (hash tag) p.canaries + (if text_eq t tag then 1 else 0) ≤ n
      → Costs n (check_limits m now t p)
  unfolding check_limits
  limits-Costs m now t p n h =
      choose n (ltb 500 all.0.count) (rejected busy, record p { windows = all.1 })
        (if ltb (canary_limit m.proven_domain) one.0.count
          then (rejected too_many, record p { windows = one.1 })
          else (checked t, record p { windows = one.1 }))
        (refused-Costs n busy (record p { windows = all.1 }) low)
        (choose n (ltb (canary_limit m.proven_domain) one.0.count)
          (rejected too_many, record p { windows = one.1 })
          (checked t, record p { windows = one.1 })
          (refused-Costs n too_many (record p { windows = one.1 }) low)
          (checked-Costs n t (record p { windows = one.1 }) h))
    where
      low : unused (hash tag) p.canaries ≤ n
      low = omega (arith, h)

      all : Window × Windows
      all = hit (codes "canary:global") now.millis canary_window p.windows

      one : Window × Windows
      one = hit (canary_bucket m.proven_domain) now.millis canary_window all.1

  canary-Spends :
      (m : Message) (now : Clock) (t : Text) (p : Post)
      → Spends p (after_consume m now t p (consume_canary (hash t) now.seconds p.canaries))
  unfolding consume_canary
  canary-Spends m now t p = elim (Bool-cases (some_of (is_open (hash t) now.seconds) p.canaries)) [
    | inr e ↦ rw e (
        omega
          (arith, unused_change (hash tag) (is_open (hash t) now.seconds) now.seconds p.canaries))
    | inl e ↦ rw e (
        limits-Costs m now t _ _ (elim (Bool-cases (text_eq t tag)) [
          | inr k ↦ rw k (
              omega (
                arith,
                unused_change (hash tag) (is_open (hash t) now.seconds) now.seconds p.canaries,
              ))
          | inl k ↦ rw k (same t e ((text_eq_iff t tag).0 k))
        ]))
  ]
    where
      same :
          (t : Text)
          → some_of (is_open (hash t) now.seconds) p.canaries ≡ true
          → t ≡ tag
          → unused (hash tag) (
                change
                  (is_open (hash t) now.seconds)
                  (λ c. record c { used_at = some now.seconds })
                  p.canaries)
              + 1
            ≤ unused (hash tag) p.canaries
      same t e k = rw k (unused_spent (hash tag) now.seconds p.canaries (rw k at e))

  email-Spends :
      (m : Message) (now : Clock) (rcpt : ParsedRecipient) (p : Post)
      → Spends p (handle_canary_email hash m now rcpt p)
  unfolding handle_canary_email
  email-Spends m now rcpt p =
      choose _ (text_eq rcpt.base (codes "check")) _ _ (by_tag (shaped_tag rcpt.tag))
        (refused-Spends unknown_recipient p)
    where
      by_tag : (o : Option Text) → Spends p (check_tag hash m now o p)
      by_tag none = refused-Spends unknown_recipient p
      by_tag (some t) =
          choose (unused (hash tag) p.canaries) (ltb max_canary_bytes m.raw_size)
            (rejected too_large, p)
            (after_consume m now t p (consume_canary (hash t) now.seconds p.canaries))
            (refused-Spends too_large p) (canary-Spends m now t p)

  report-Spends :
      (cfg : Config) (m : Message) (now : Clock) (k : Option ReportKind) (o : Option Text)
      (p : Post)
      → Spends p (with_kind hash cfg m now k o p)
  report-Spends cfg m now none o p = refused-Spends unknown_recipient p
  report-Spends cfg m now (some kind) o p =
      choose _ (ltb max_report_bytes m.raw_size) _ _ (refused-Spends too_large p)
        (by_tag (shaped_tag o))
    where
      by_charge : (t : IntakeToken) (r : Bool × List Usage) → Spends p (after_charge kind t p r)
      by_charge t (false, us) = omega arith
      by_charge t (true, us) = omega arith

      by_token : (o' : Option IntakeToken) → Spends p (with_token cfg m now kind o' p)
      by_token none = refused-Spends unknown_token p
      by_token (some t) =
          by_charge t (
            charge cfg.limits cfg.well_known (slot_of now t) m.claimed m.raw_size m.reporter
              p.usage)

      by_tag : (o' : Option Text) → Spends p (with_tag hash cfg m now kind o' p)
      by_tag none = refused-Spends unknown_token p
      by_tag (some t) = by_token (resolve_token (hash t) now.seconds p)

  handle-Spends :
      (cfg : Config) (m : Message) (now : Clock) (p : Post)
      → Spends p (handle_hosted_email hash cfg m now p)
  unfolding handle_hosted_email
  handle-Spends cfg m now p = by_domains cfg.is_enabled cfg.intake_domain cfg.canary_domain
    where
      by_rcpt :
          (intake canary : Text) (o : Option ParsedRecipient)
          → Spends p (route hash cfg intake canary m now o p)
      by_rcpt intake canary none = unfold route in refused-Spends unknown_recipient p
      by_rcpt intake canary (some rcpt) =
          unfold route in
          choose (unused (hash tag) p.canaries) (text_eq rcpt.host canary)
            (handle_canary_email hash m now rcpt p)
            (if text_eq rcpt.host intake
              then with_kind hash cfg m now (kind_of rcpt.base) rcpt.tag p
              else (rejected unknown_recipient, p))
            (email-Spends m now rcpt p)
            (choose (unused (hash tag) p.canaries) (text_eq rcpt.host intake)
              (with_kind hash cfg m now (kind_of rcpt.base) rcpt.tag p)
              (rejected unknown_recipient, p)
              (report-Spends cfg m now (kind_of rcpt.base) rcpt.tag p)
              (refused-Spends unknown_recipient p))

      by_domains : (b : Bool) (i c : Option Text) → Spends p (with_domains hash cfg b i c m now p)
      by_domains true (some i) (some c) = by_rcpt i c (parse_recipient m.to)
      by_domains true (some i) none = omega arith
      by_domains true none c = omega arith
      by_domains false i c = omega arith

  -- The free checks of the tag among the messages that come.
  abbrev pub checks : Config → List (Message × Clock) → Post → ℕ
  checks cfg [] p = 0
  checks cfg ((m, now) ∷ ms) p =
      let r = handle_hosted_email hash cfg m now p in
      (if is_check r.0 then 1 else 0) + checks cfg ms r.1

  checks_unused :
      (cfg : Config) (ms : List (Message × Clock)) (p : Post)
      → checks cfg ms p ≤ unused (hash tag) p.canaries
  checks_unused cfg [] p = omega arith
  checks_unused cfg ((m, now) ∷ ms) p = omega (
    arith,
    handle-Spends cfg m now p,
    checks_unused cfg ms (handle_hosted_email hash cfg m now p).1,
  )

-- Whatever messages come to the hosted service, an address of the free check is good for one email: at
-- most one is checked under its tag, where one row at most has the hash of the tag.
pub checks-le :
    (hash : Text → Text) (tag : Text) (cfg : Config) (ms : List (Message × Clock)) (p : Post)
    → count (λ t. text_eq t.hash (hash tag)) p.canaries ≤ 1
    → checks hash tag cfg ms p ≤ 1
checks-le hash tag cfg ms p one =
    omega (arith, one, checks_unused hash tag cfg ms p, fewer p.canaries)
  where
    fewer :
        (ts : List CanaryToken) → unused (hash tag) ts ≤ count (λ t. text_eq t.hash (hash tag)) ts
    fewer [] = omega arith
    fewer (t ∷ ts) = ground (arith, fewer ts)
