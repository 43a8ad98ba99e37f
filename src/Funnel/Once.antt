-- ===== src/Funnel/Once.antt =====
-- src/funnel/sequence.ts: no email of the sequence goes out twice, however runs overlap.
use inbox_angel_worker.Common.{
  ℕ, suc, ◌+◌, ◌≤◌, ◌<◌, ◌≡◌, refl, sym, ap, Bool, true, false, ◌&&◌, ◌⊎◌, inl, inr, List, ◌∷◌,
  Option, some, ◌==◌, if◌then◌else◌, arith, Option-cases, Bool-cases, some_inj, ==_iff,
}
use inbox_angel_worker.Funnel.{Lead, Leads, advance, restore, put, after_send, is_active, is_due}
use inbox_angel_worker.Funnel.Worker.{
  Sending, same, count, Pick, top, below, KeepsSteps, Step, mark, deliver, undo, drop, change,
  Reach, here, next,
}

abbrev uses : ℕ → ℕ → Sending → ℕ
uses id s w = count id s w.flying + count id s w.mailed

-- Each step of each lead is in flight or mailed at most once, and not at all from the lead's step on.
pub record Inv (w : Sending) : Type 0 where
  pub once : (id s : ℕ) → count id s w.flying + count id s w.mailed ≤ 1
  pub ahead :
      (id : ℕ) (l : Lead)
      → (w.leads).rows id ≡ some l
      → (s : ℕ) → l.step ≤ s
      → count id s w.flying + count id s w.mailed ≡ 0
  pub unused : (id s : ℕ) → (w.leads).next_id ≤ id → count id s w.flying + count id s w.mailed ≡ 0
  pub bounded : (id : ℕ) (l : Lead) → (w.leads).rows id ≡ some l → id < (w.leads).next_id

count-Pick :
    (id s j k : ℕ) {ps rest : List (ℕ × ℕ)}
    → Pick (j, k) ps rest
    → count id s ps ≡ (if same id s (j, k) then suc (count id s rest) else count id s rest)
count-Pick id s j k (top ps) = refl
count-Pick id s j k (below pick) = ground (arith, count-Pick id s j k pick)

advance_row :
    (id s : ℕ) (next' : Option ℕ) (now : ℕ) (t t' : Leads) (l : Lead)
    → t.rows id ≡ some l
    → advance id s next' now t ≡ (true, t')
    → (l.step ≡ s) × (t' ≡ put id (some (after_send next' now l)) t)
unfolding advance
advance_row id s next' now t t' l e h =
    split (is_active l.status && l.step == s && is_due l.next_send_at now) refl
      (rw (e, advance) at h)
  where
    split :
        (b : Bool)
        → (is_active l.status && l.step == s && is_due l.next_send_at now) ≡ b
        → ◌≡◌ {A = Bool × Leads}
            (if is_active l.status && l.step == s && is_due l.next_send_at now
              then (true, put id (some (after_send next' now l)) t)
              else (false, t))
            (true, t')
        → (l.step ≡ s) × (t' ≡ put id (some (after_send next' now l)) t)
    split true test won = (ground arith, sym (ap (λ p. p.1) (rw test at won)))
    split false test won = absurd (cc (rw test at won))

-- What a successful mark has seen and written.
advance-won :
    (id s : ℕ) (next' : Option ℕ) (now : ℕ) (t t' : Leads)
    → advance id s next' now t ≡ (true, t')
    → (l : Lead) × (t.rows id ≡ some l)
      × (l.step ≡ s)
      × (t' ≡ put id (some (after_send next' now l)) t)
unfolding advance
advance-won id s next' now t t' h = elim (Option-cases (t.rows id)) [
  | inl e ↦ absurd (cc (rw (e, advance) at h))
  | inr (l, e) ↦
      let (at, same_table) = advance_row id s next' now t t' l e h in (l, e, at, same_table)
]

mark-Inv :
    (w : Sending) (id s : ℕ) (next' : Option ℕ) (now : ℕ) (l : Lead)
    → Inv w
    → (w.leads).rows id ≡ some l
    → l.step ≡ s
    → Inv (record w {
      leads = put id (some (after_send next' now l)) w.leads;
      flying = (id, s) ∷ w.flying;
    })
mark-Inv w id s next' now l v e at = record {
  once = λ j k. ground (arith, v.once j k, v.ahead id l e s);
  ahead = λ j m row k le.
      ground (arith, v.ahead id l e k, λ (p : (w.leads).rows j ≡ some m). v.ahead j m p k);
  unused = λ j k le. ground (arith, v.unused j k, v.bounded id l e);
  bounded = λ j m row. ground (arith, v.bounded id l e, v.bounded j m);
}

-- Taking a step out of flight, with or without the log of what was mailed.
deliver-Inv :
    (w : Sending) (id s : ℕ) (rest : List (ℕ × ℕ))
    → Inv w
    → Pick (id, s) w.flying rest
    → Inv (record w { flying = rest; mailed = (id, s) ∷ w.mailed })
deliver-Inv w id s rest v pick = record {
  once = λ j k. ground (arith, v.once j k, count-Pick j k id s pick);
  ahead = λ j m row k le. ground (arith, v.ahead j m row k le, count-Pick j k id s pick);
  unused = λ j k le. ground (arith, v.unused j k le, count-Pick j k id s pick);
  bounded = v.bounded;
}

drop-Inv :
    (w : Sending) (id s : ℕ) (rest : List (ℕ × ℕ))
    → Inv w
    → Pick (id, s) w.flying rest
    → Inv (record w { flying = rest })
drop-Inv w id s rest v pick = record {
  once = λ j k. ground (arith, v.once j k, count-Pick j k id s pick);
  ahead = λ j m row k le. ground (arith, v.ahead j m row k le, count-Pick j k id s pick);
  unused = λ j k le. ground (arith, v.unused j k le, count-Pick j k id s pick);
  bounded = v.bounded;
}

-- The rows of the table after a step was put back.
restore-rows :
    (id s next_send : ℕ) (last : Option ℕ) (t : Leads) (j : ℕ) (m : Lead)
    → (restore id (suc s) s next_send last t).rows j ≡ some m
    → (t.rows j ≡ some m)
      ⊎ ((l : Lead) × (t.rows j ≡ some l) × (j ≡ id) × (l.step ≡ suc s) × (m.step ≡ s))
unfolding restore
restore-rows id s next_send last t j m row = elim (Option-cases (t.rows id)) [
  | inl e ↦ inl (rw (e, restore) at row)
  | inr (l, e) ↦
      let row' = rw (e, restore) at row in
      elim (Bool-cases (l.step == suc s)) [
        | inr no_match ↦ inl (rw no_match at row')
        | inl match ↦ elim (Bool-cases (j == id)) [
          | inr other ↦ inl (rw other at (rw match at row'))
          | inl this ↦
              let here' : j ≡ id = (==_iff j id).0 this in
              inr (
                l,
                rw here' e,
                here',
                (==_iff l.step (suc s)).0 match,
                sym (ap (λ (x : Lead). x.step) (some_inj (rw this at (rw match at row')))),
              )
        ]
      ]
]

restore-next_id :
    (id s next_send : ℕ) (last : Option ℕ) (t : Leads)
    → (restore id (suc s) s next_send last t).next_id ≡ t.next_id
unfolding restore
restore-next_id id s next_send last t = ground arith

undo-Inv :
    (w : Sending) (id s next_send : ℕ) (last : Option ℕ) (rest : List (ℕ × ℕ))
    → Inv w
    → Pick (id, s) w.flying rest
    → Inv (record w { leads = restore id (suc s) s next_send last w.leads; flying = rest })
undo-Inv w id s next_send last rest v pick = record {
  once = λ j k. ground (arith, v.once j k, count-Pick j k id s pick);
  ahead = λ j m row k le. elim (restore-rows id s next_send last w.leads j m row) [
    | inl kept ↦ ground (arith, v.ahead j m kept k le, count-Pick j k id s pick)
    | inr (l, old, this, from, to) ↦ ground (
      arith,
      v.once j k,
      λ (p : suc s ≤ k). v.ahead j l old k (rw from p),
      count-Pick j k id s pick,
    )
  ];
  unused = λ j k le. ground (
    arith,
    v.unused j k (rw (← restore-next_id id s next_send last w.leads) le),
    count-Pick j k id s pick,
  );
  bounded = λ j m row.
      rw (restore-next_id id s next_send last w.leads)
        (elim (restore-rows id s next_send last w.leads j m row) [
          | inl kept ↦ v.bounded j m kept
          | inr (l, old, this, from, to) ↦ v.bounded j l old
        ]);
}

change-Inv :
    (w : Sending) (t' : Leads) → Inv w → KeepsSteps w.leads t' → Inv (record w { leads = t' })
change-Inv w t' v keeps = record {
  once = v.once;
  ahead = λ j m row k le. elim (keeps.kept j m row) [
    | inl (l, old, same_step) ↦ v.ahead j l old k (rw same_step le)
    | inr (new, _) ↦ v.unused j k new
  ];
  unused = λ j k le. v.unused j k (omega (arith, keeps.grows));
  bounded = λ j m row. elim (keeps.kept j m row) [
    | inl (l, old, _) ↦ omega (arith, v.bounded j l old, keeps.grows)
    | inr (_, lt) ↦ lt
  ];
}

Step-Inv : {w w' : Sending} → Step w w' → Inv w → Inv w'
Step-Inv {w} (mark id s next' now t' won) v =
    let (l, e, at, is_put) = advance-won id s next' now w.leads t' won in
    rw is_put (mark-Inv w id s next' now l v e at)
Step-Inv {w} (deliver id s rest pick) v = deliver-Inv w id s rest v pick
Step-Inv {w} (undo id s next_send last rest pick) v = undo-Inv w id s next_send last rest v pick
Step-Inv {w} (drop id s rest pick) v = drop-Inv w id s rest v pick
Step-Inv {w} (change t' keeps) v = change-Inv w t' v keeps

pub Reach-Inv : {w w' : Sending} → Reach w w' → Inv w → Inv w'
Reach-Inv here v = v
Reach-Inv (next r st) v = Step-Inv st (Reach-Inv r v)

-- From a state where each step of a lead is in flight or mailed at most once, and none from the lead's
-- own step on, no step of a lead is mailed twice, however the statements of overlapping runs
-- interleave, with unsubscribes, stops and new leads between them.
pub Reach-once : (w w' : Sending) → Reach w w' → Inv w → (id s : ℕ) → count id s w'.mailed ≤ 1
Reach-once w w' r v id s = omega (arith, (Reach-Inv r v).once id s)
