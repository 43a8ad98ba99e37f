-- ===== src/Funnel/Runs.antt =====
-- src/funnel/sequence.ts: a run is made of the steps that may interleave.
use inbox_angel_worker.Common.{
  ℕ, suc, ◌+◌, ◌≡◌, refl, sym, ◌∙◌, ap, Bool, true, false, not, ◌&&◌, ◌||◌, inl, inr, List, [], ◌∷◌,
  Option, some, none, arith, Option-cases, Bool-cases, some_inj, ◌==◌, ==_iff,
}
use mathlib.Core.Option
use inbox_angel_worker.Text.{Text}
use inbox_angel_worker.Funnel.{
  Lead, Leads, put, suppression_has, advance, release, set_status, delete, without, bounced,
  converted, upsert, LeadUpsert, id_of_email, push_out, stop_with, LeadStatus, due, refresh,
  new_lead, delete_inactive_before, without_old,
}
use inbox_angel_worker.Funnel.Worker.{
  Sending, top, KeepsSteps, mark, deliver, undo, drop, change, Reach, here, next, Reach-trans,
}
use inbox_angel_worker.Funnel.Sequence.{
  World, Settings, Run, Fault, Outcome, sent, suppressed, blocked, bad_recipient, bad_config,
  transient, no_fault, before_mark, before_answer, before_answer_stuck, first_update, second_update,
  settle, fail_first, fail_second, if_won, send_non_transactional, with_leads, fails_early,
  needs_booking_url, day, readiness, is_nil, meet_fault, send_marked, mark_and_send, handle_lead,
  handle_all, run_onboarding_sequence,
}

-- A change of one row that leaves its step alone.
row-KeepsSteps :
    (id : ℕ) (f : Lead → Lead) (t : Leads)
    → ((l : Lead) → (f l).step ≡ l.step)
    → KeepsSteps t (put id (Option.map f (t.rows id)) t)
row-KeepsSteps id f t same = record {
  grows = omega arith;
  kept = λ j m row. elim (Bool-cases (j == id)) [
    | inr other ↦ inl (m, rw other at row, refl)
    | inl this ↦ elim (Option-cases (t.rows id)) [
      | inl e ↦ absurd (cc (rw (this, e) at row))
      | inr (l, e) ↦ inl (
        l,
        rw ((==_iff j id).0 this) e,
        sym (same l) ∙ ap (λ (x : Lead). x.step) (some_inj (rw (this, e) at row)),
      )
    ]
  ];
}

-- Rows that are only kept or taken away.
filter-KeepsSteps :
    (g : Option Lead → Option Lead) (t : Leads)
    → ((o : Option Lead) (m : Lead) → g o ≡ some m → o ≡ some m)
    → KeepsSteps t (record t { rows = λ j. g (t.rows j) })
filter-KeepsSteps g t kept' = record {
  grows = omega arith;
  kept = λ j m row. inl (m, kept' (t.rows j) m row, refl);
}

release-KeepsSteps : (id next_send : ℕ) (t : Leads) → KeepsSteps t (release id next_send t)
unfolding release
release-KeepsSteps id next_send t = row-KeepsSteps id (push_out next_send) t (λ l. refl)

set_status-KeepsSteps : (id : ℕ) (s : LeadStatus) (t : Leads) → KeepsSteps t (set_status id s t)
unfolding set_status
set_status-KeepsSteps id s t = row-KeepsSteps id (stop_with s) t (λ l. refl)

delete-KeepsSteps : (email : Text) (t : Leads) → KeepsSteps t (delete email t)
unfolding delete
delete-KeepsSteps email t = filter-KeepsSteps (without email) t without_kept
  where
    without_kept : (o : Option Lead) (m : Lead) → without email o ≡ some m → o ≡ some m
    without_kept none m h = h
    without_kept (some l) m h = ground arith

delete_inactive-KeepsSteps :
    (cutoff : ℕ) (t : Leads) → KeepsSteps t (delete_inactive_before cutoff t)
unfolding delete_inactive_before
delete_inactive-KeepsSteps cutoff t = filter-KeepsSteps (without_old cutoff) t without_kept
  where
    without_kept : (o : Option Lead) (m : Lead) → without_old cutoff o ≡ some m → o ≡ some m
    without_kept none m h = h
    without_kept (some l) m h = ground arith

new_row-KeepsSteps :
    (l : Lead) (t : Leads)
    → KeepsSteps t (record (put t.next_id (some l) t) { next_id = suc t.next_id })
new_row-KeepsSteps l t = record {
  grows = omega arith;
  kept = λ j m row. elim (Bool-cases (j == t.next_id)) [
    | inr other ↦ inl (m, rw other at row, refl)
    | inl this ↦
        inr (omega (arith, (==_iff j t.next_id).0 this), omega (arith, (==_iff j t.next_id).0 this))
  ];
}

-- A lead that enrols, or enrols again, moves nobody along the sequence.
pub upsert-KeepsSteps : (l : LeadUpsert) (t : Leads) → KeepsSteps t (upsert l t).1
unfolding upsert
upsert-KeepsSteps l t = elim (Option-cases (id_of_email l.email t)) [
  | inl e ↦ rw (e, upsert) (new_row-KeepsSteps (new_lead l) t)
  | inr (id, e) ↦ rw (e, upsert) (row-KeepsSteps id (refresh l) t (λ row. refl))
]

abbrev pub sending : Run → List (ℕ × ℕ) → Sending
sending r flying = record { leads = r.leads; flying = flying; mailed = r.mailed }

module _ (w : World) (now id : ℕ) (l : Lead) (flying : List (ℕ × ℕ)) where
  settle-Reach :
      (out : Outcome) (r : Run)
      → Reach (sending r ((id, l.step) ∷ flying)) (sending (settle w now id l out r).0 flying)
  unfolding settle
  settle-Reach sent r = next here (deliver id l.step flying (top flying))
  settle-Reach suppressed r =
      next (next here (drop id l.step flying (top flying)))
        (change _ (delete-KeepsSteps l.email r.leads))
  settle-Reach bad_recipient r =
      next (next here (drop id l.step flying (top flying)))
        (change _ (set_status-KeepsSteps id bounced r.leads))
  settle-Reach blocked r = next here (undo id l.step _ _ flying (top flying))
  settle-Reach bad_config r = next here (undo id l.step _ _ flying (top flying))
  settle-Reach transient r = next here (deliver id l.step flying (top flying))

  fail_first-Reach :
      (out : Outcome) (r : Run)
      → Reach (sending r ((id, l.step) ∷ flying)) (sending (fail_first w now id l out r).0 flying)
  fail_first-Reach sent r = settle-Reach sent r
  fail_first-Reach transient r = settle-Reach transient r
  fail_first-Reach suppressed r = next here (drop id l.step flying (top flying))
  fail_first-Reach _ r = next here (drop id l.step flying (top flying))

  fail_second-Reach :
      (out : Outcome) (r : Run)
      → Reach (sending r ((id, l.step) ∷ flying)) (sending (fail_second w now id l out r).0 flying)
  fail_second-Reach bad_recipient r =
      next (next here (drop id l.step flying (top flying)))
        (change _ (set_status-KeepsSteps id bounced r.leads))
  fail_second-Reach sent r = settle-Reach sent r
  fail_second-Reach out r = settle-Reach out r

  meet_fault-Reach :
      (out : Outcome) (f : Fault) (r : Run)
      → Reach (sending r ((id, l.step) ∷ flying)) (sending (meet_fault w now id l out f r).0 flying)
  unfolding meet_fault
  meet_fault-Reach out before_answer r = next here (undo id l.step _ _ flying (top flying))
  meet_fault-Reach out before_answer_stuck r = next here (drop id l.step flying (top flying))
  meet_fault-Reach out first_update r = fail_first-Reach out r
  meet_fault-Reach out second_update r = fail_second-Reach out r
  meet_fault-Reach out before_mark r = settle-Reach out r
  meet_fault-Reach out no_fault r = settle-Reach out r

  if_won-Reach :
      (c : Settings) (next' : Option ℕ) (p : Bool × Leads) (r : Run)
      → advance id l.step next' now r.leads ≡ p
      → Reach (sending r flying) (sending (if_won w c now id l p r).0 flying)
  unfolding if_won send_marked
  if_won-Reach c next' (true, t') r won =
      Reach-trans (next here (mark id l.step next' now t' won)) (
        meet_fault-Reach (send_non_transactional w c true r.hashes id l.step l.email)
          (w.fault id l.step) (with_leads t' r))
  if_won-Reach c next' (false, t') r lost = here

handle_lead-Reach :
    (w : World) (c : Settings) (now : ℕ) (lead : ℕ × Lead) (flying : List (ℕ × ℕ)) (r : Run)
    → Reach (sending r flying) (sending (handle_lead w c now lead r).0 flying)
unfolding handle_lead mark_and_send
handle_lead-Reach w c now (id, l) flying r = elim (Bool-cases (fails_early (w.fault id l.step))) [
  | inl e ↦ rw e here
  | inr e ↦ rw e (elim (Bool-cases (suppression_has w.hash r.hashes l.email)) [
    | inl f ↦ rw f (next here (change _ (delete-KeepsSteps l.email r.leads)))
    | inr f ↦ rw f (elim (Bool-cases (w.is_user l.email)) [
      | inl g ↦ rw g (next here (change _ (set_status-KeepsSteps id converted r.leads)))
      | inr g ↦ rw g (elim (Bool-cases (needs_booking_url l.step && not c.has_booking_url)) [
        | inl h ↦ rw h (next here (change _ (release-KeepsSteps id (now + day) r.leads)))
        | inr h ↦ rw h (if_won-Reach w now id l flying c _ _ r refl)
      ])
    ])
  ])
]

handle_all-Reach :
    (w : World) (c : Settings) (now : ℕ) (ls : List (ℕ × Lead)) (flying : List (ℕ × ℕ)) (r : Run)
    → Reach (sending r flying) (sending (handle_all w c now ls r) flying)
unfolding handle_all
handle_all-Reach w c now [] flying r = here
handle_all-Reach w c now (l ∷ ls) flying r =
    let one = handle_lead-Reach w c now l flying r in
    elim (Bool-cases (handle_lead w c now l r).1) [
      | inl e ↦
          rw e (Reach-trans one (handle_all-Reach w c now ls flying (handle_lead w c now l r).0))
      | inr e ↦ rw e one
    ]

-- Whatever the provider answers and wherever an exception is thrown while a lead is handled, between two
-- updates too, a whole run is a sequence of the steps that may interleave, also while other runs have
-- steps in flight. A statement that throws is taken to have changed nothing.
pub run_onboarding_sequence-Reach :
    (w : World) (c : Settings) (now limit : ℕ) (t : Leads) (hashes : List Text)
    (mailed flying : List (ℕ × ℕ))
    → Reach
        (record { leads = t; flying = flying; mailed = mailed })
        (sending (run_onboarding_sequence w c now limit t hashes mailed) flying)
unfolding run_onboarding_sequence
run_onboarding_sequence-Reach w c now limit t hashes mailed flying =
    elim (Bool-cases (not (readiness c).enabled || not (is_nil (readiness c).blockers))) [
      | inl e ↦ rw e here
      | inr e ↦ rw e (handle_all-Reach w c now (due now limit t) flying _)
    ]
