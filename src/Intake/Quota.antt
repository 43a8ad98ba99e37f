-- ===== src/Intake/Quota.antt =====
-- packages/db/src/queries/intake.ts: how many messages of unknown reporters a day accepts.
use mathlib.Core.Path.{subst}
use inbox_angel_worker.Common.{
  All, ℕ, suc, ◌+◌, ◌≤◌, ◌≡◌, ◌⊎◌, refl, ◌∙◌, max, Bool, true, false, not, ◌&&◌, ◌||◌, List, [],
  ◌∷◌, ◌++◌, Option, none, some, ltb, if◌then◌else◌, find, arith, inl, inr, ap,
}
use inbox_angel_worker.Text.{Text, codes, text_eq}
use inbox_angel_worker.Intake.{
  Usage, Slot, Allowance, total_row, is_row, make_room, count_usage, after_total, with_total,
  after_count, is_exempt, try_consume, IntakeLimits, Parcel, charge,
}
use inbox_angel_worker.Intake.Total.{
  reports_of, total_of, counted_other, given_back_other, room_other, counted_total,
}

module _ (s : Slot) where
  -- What a charge does to the total of the day.
  record Settles (counts : Bool) (limit : ℕ) (us : List Usage) (r : Bool × List Usage)
      : Type 0 where
    pub same : (counts && r.0) ≡ false → total_of s r.1 ≡ total_of s us
    pub more : (counts && r.0) ≡ true → total_of s r.1 ≡ suc (total_of s us)
    pub within : (counts && r.0) ≡ true → suc (total_of s us) ≤ max 1 limit

  total-Settles :
      (reporter : Text) (b : ℕ) (exempt : Bool) (t : Allowance) (us : List Usage)
      → text_eq reporter total_row ≡ false
      → Settles (not exempt) t.max_reports us (with_total s reporter b exempt (some t) us)
  total-Settles reporter b true t us ne = record {
    same = λ _. refl;
    more = λ e. absurd (cc e);
    within = λ e. absurd (cc e);
  }
  total-Settles reporter b false t us ne =
      by_count (count_usage s total_row b t us) (counted_total s b t us)
    where
      by_count :
          (r : Bool × List Usage)
          → ((r.0 ≡ true)
              × (total_of s r.1 ≡ suc (total_of s us))
              × (suc (total_of s us) ≤ max 1 t.max_reports))
            ⊎ ((r.0 ≡ false) × (r.1 ≡ us))
          → Settles true t.max_reports us (after_total s reporter b r)
      by_count (true, us') (inl (_, grown, low)) = record {
        same = λ e. absurd (cc e);
        more = λ _. grown;
        within = λ _. low;
      }
      by_count (true, us') (inr (e, _)) = absurd (cc e)
      by_count (false, us') (inl (e, _, _)) = absurd (cc e)
      by_count (false, us') (inr (_, e)) = record {
        same = λ _. ap reports_of (given_back_other s reporter b us' ne) ∙ ap (total_of s) e;
        more = λ k. absurd (cc k);
        within = λ k. absurd (cc k);
      }

  count-Settles :
      (reporter : Text) (b : ℕ) (exempt : Bool) (t : Allowance) (us : List Usage)
      (r : Bool × List Usage)
      → text_eq reporter total_row ≡ false
      → total_of s r.1 ≡ total_of s us
      → Settles (not exempt) t.max_reports us (after_count s reporter b exempt (some t) r)
  count-Settles reporter b exempt t us (false, us') ne e = record {
    same = λ _. e;
    more = λ k. ground (arith, k);
    within = λ k. ground (arith, k);
  }
  count-Settles reporter b exempt t us (true, us') ne e =
      let v = total-Settles reporter b exempt t us' ne in
      record {
        same = λ k. v.same k ∙ e;
        more = λ k. v.more k ∙ ap suc e;
        within = λ k. subst (λ n. suc n ≤ max 1 t.max_reports) e (v.within k);
      }

  consume-Settles :
      (reporter : Text) (b : ℕ) (a : Allowance) (n : ℕ) (well_known : List Text) (t : Allowance)
      (us : List Usage)
      → text_eq reporter total_row ≡ false
      → Settles
          (not (is_exempt well_known reporter))
          t.max_reports
          us
          (try_consume s reporter b a n well_known (some t) us)
  unfolding try_consume
  consume-Settles reporter b a n well_known t us ne =
      by_guard (ltb a.max_reports 1 || ltb a.max_bytes b)
    where
      by_guard :
          (g : Bool)
          → Settles (not (is_exempt well_known reporter)) t.max_reports us (
              if g
              then (false, us)
              else after_count s
                  (make_room s well_known n reporter us).0
                  b
                  (is_exempt well_known reporter)
                  (some t)
                  (count_usage s
                    (make_room s well_known n reporter us).0
                    b
                    a
                    (make_room s well_known n reporter us).1))
      by_guard true = record {
        same = λ _. refl;
        more = λ k. ground (arith, k);
        within = λ k. ground (arith, k);
      }
      by_guard false =
          let (ne', kept) = room_other s well_known n reporter us ne in
          count-Settles (make_room s well_known n reporter us).0 b (is_exempt well_known reporter) t
            us _ ne'
            (ap reports_of (
              counted_other s (make_room s well_known n reporter us).0 b a
                (make_room s well_known n reporter us).1 ne'
              ∙ kept))

  unproven_same :
      (reporter : Text) (b : ℕ) (a : Allowance) (n : ℕ) (us : List Usage)
      → text_eq reporter total_row ≡ false
      → total_of s (try_consume s reporter b a n [] none us).1 ≡ total_of s us
  unfolding try_consume
  unproven_same reporter b a n us ne = by_guard (ltb a.max_reports 1 || ltb a.max_bytes b)
    where
      by_count :
          (r : Bool × List Usage) (reporter' : Text)
          → (after_count s reporter' b (is_exempt [] reporter) none r).1 ≡ r.1
      by_count (true, us') reporter' = refl
      by_count (false, us') reporter' = refl

      by_guard :
          (g : Bool)
          → total_of s
              (if g
                then (false, us)
                else after_count s (make_room s [] n reporter us).0 b (is_exempt [] reporter) none (
                    count_usage s
                      (make_room s [] n reporter us).0
                      b
                      a
                      (make_room s [] n reporter us).1)).1
            ≡ total_of s us
      by_guard true = refl
      by_guard false =
          let (ne', kept) = room_other s [] n reporter us ne in
          ap (total_of s) (
            by_count
              (count_usage s (make_room s [] n reporter us).0 b a (make_room s [] n reporter us).1)
              (make_room s [] n reporter us).0)
          ∙ ap reports_of (
              counted_other s (make_room s [] n reporter us).0 b a (make_room s [] n reporter us).1
                ne'
              ∙ kept)

  claimed_ne : (host : Text) → text_eq (codes "~" ++ host) total_row ≡ false
  unfolding text_eq
  claimed_ne host = refl

  module _ (l : IntakeLimits) (well_known : List Text) where
    -- A proven reporter that is not well known.
    abbrev pub is_counted : Option Text → Bool
    is_counted none = false
    is_counted (some reporter) = not (is_exempt well_known reporter)

    -- How many messages of such reporters are accepted, among all that come.
    abbrev pub accepted : List Parcel → List Usage → ℕ
    accepted [] us = 0
    accepted (m ∷ ms) us =
        let r = charge l well_known s m.claimed m.size m.reporter us in
        let rest = accepted ms r.1 in if is_counted m.reporter && r.0 then suc rest else rest

    charge-Settles :
        (m : Parcel) (us : List Usage)
        → ((r : Text) → m.reporter ≡ some r → text_eq r total_row ≡ false)
        → Settles
            (is_counted m.reporter)
            l.total_reports_per_day
            us
            (charge l well_known s m.claimed m.size m.reporter us)
    unfolding charge
    charge-Settles m us ne = by_reporter m.reporter ne
      where
        by_reporter :
            (o : Option Text)
            → ((r : Text) → o ≡ some r → text_eq r total_row ≡ false)
            → Settles
                (is_counted o)
                l.total_reports_per_day
                us
                (charge l well_known s m.claimed m.size o us)
        by_reporter none h = record {
          same = λ _. unproven_same (codes "~" ++ m.claimed) m.size _ _ us (claimed_ne m.claimed);
          more = λ k. absurd (cc k);
          within = λ k. absurd (cc k);
        }
        by_reporter (some r) h = consume-Settles r m.size _ _ well_known _ us (h r refl)

    accepted_within :
        (ms : List Parcel) (us : List Usage)
        → All (λ m. (r : Text) → m.reporter ≡ some r → text_eq r total_row ≡ false) ms
        → accepted ms us + total_of s us ≤ max (max 1 l.total_reports_per_day) (total_of s us)
    accepted_within [] us h = omega arith
    accepted_within (m ∷ ms) us (h, hs) =
        let r = charge l well_known s m.claimed m.size m.reporter us in
        by_case (is_counted m.reporter && r.0) refl (charge-Settles m us h)
          (accepted_within ms r.1 hs)
      where
        by_case :
            (c : Bool)
            → (is_counted m.reporter && (charge l well_known s m.claimed m.size m.reporter us).0)
              ≡ c
            → Settles
                (is_counted m.reporter)
                l.total_reports_per_day
                us
                (charge l well_known s m.claimed m.size m.reporter us)
            → accepted ms (charge l well_known s m.claimed m.size m.reporter us).1
                + total_of s (charge l well_known s m.claimed m.size m.reporter us).1
              ≤ max
                  (max 1 l.total_reports_per_day)
                  (total_of s (charge l well_known s m.claimed m.size m.reporter us).1)
            → (if c
                  then suc (accepted ms (charge l well_known s m.claimed m.size m.reporter us).1)
                  else accepted ms (charge l well_known s m.claimed m.size m.reporter us).1)
                + total_of s us
              ≤ max (max 1 l.total_reports_per_day) (total_of s us)
        by_case true e v rest = omega (arith, rest, v.more e, v.within e)
        by_case false e v rest = omega (arith, rest, v.same e)

-- Of all the messages that come to an address in a day, in any order, those accepted from proven
-- reporters that are not well known are at most the limit of the day in total (one, where that is 0),
-- however many reporters there are and however their slots change hands. No reporter is called `*`.
pub accepted-le :
    (s : Slot) (l : IntakeLimits) (well_known : List Text) (ms : List Parcel) (us : List Usage)
    → find (is_row s total_row) us ≡ none
    → All (λ m. (r : Text) → m.reporter ≡ some r → text_eq r total_row ≡ false) ms
    → accepted s l well_known ms us ≤ max 1 l.total_reports_per_day
accepted-le s l well_known ms us fresh named =
    omega (arith, accepted_within s l well_known ms us named, ap reports_of fresh)
