-- ===== src/Funnel/Worker.antt =====
-- src/funnel/sequence.ts: overlapping runs as interleaved steps on the table of leads. A step that a
-- run has marked, and that the provider has not answered for, is in flight.
use inbox_angel_worker.Common.{
  ℕ, suc, ◌≤◌, ◌<◌, ◌≡◌, Bool, true, ◌&&◌, ◌⊎◌, List, [], ◌∷◌, Option, some, ◌==◌, if◌then◌else◌,
}
use inbox_angel_worker.Funnel.{Lead, Leads, advance, restore}

pub record Sending : Type 0 where
  pub leads : Leads
  pub flying : List (ℕ × ℕ)
  pub mailed : List (ℕ × ℕ)

abbrev pub same : ℕ → ℕ → ℕ × ℕ → Bool
same id s (j, k) = j == id && k == s

-- How often the step `s` of the lead `id` stands in a list.
abbrev pub count : ℕ → ℕ → List (ℕ × ℕ) → ℕ
count id s [] = 0
count id s (p ∷ ps) = if same id s p then suc (count id s ps) else count id s ps

-- One item taken out of a list.
pub data Pick (p : ℕ × ℕ) : List (ℕ × ℕ) → List (ℕ × ℕ) → Type 0 where
  top : (ps : List (ℕ × ℕ)) → Pick p (p ∷ ps) ps
  below : {q : ℕ × ℕ} {ps rest : List (ℕ × ℕ)} → Pick p ps rest → Pick p (q ∷ ps) (q ∷ rest)

-- A change of the table that moves no lead along the sequence; new leads have new ids.
pub record KeepsSteps (t t' : Leads) : Type 0 where
  pub grows : t.next_id ≤ t'.next_id
  pub kept :
      (id : ℕ) (l' : Lead)
      → t'.rows id ≡ some l'
      → ((l : Lead) × (t.rows id ≡ some l) × (l.step ≡ l'.step))
        ⊎ ((t.next_id ≤ id) × (id < t'.next_id))

pub data Step (w : Sending) : Sending → Type 0 where
  mark :
      (id s : ℕ) (next : Option ℕ) (now : ℕ) (t' : Leads)
      → advance id s next now w.leads ≡ (true, t')
      → Step w (record w { leads = t'; flying = (id, s) ∷ w.flying })
  deliver :
      (id s : ℕ) (rest : List (ℕ × ℕ))
      → Pick (id, s) w.flying rest
      → Step w (record w { flying = rest; mailed = (id, s) ∷ w.mailed })
  undo :
      (id s next_send : ℕ) (last : Option ℕ) (rest : List (ℕ × ℕ))
      → Pick (id, s) w.flying rest
      → Step w (record w { leads = restore id (suc s) s next_send last w.leads; flying = rest })
  drop :
      (id s : ℕ) (rest : List (ℕ × ℕ))
      → Pick (id, s) w.flying rest
      → Step w (record w { flying = rest })
  change : (t' : Leads) → KeepsSteps w.leads t' → Step w (record w { leads = t' })

pub data Reach (w : Sending) : Sending → Type 0 where
  here : Reach w w
  next : {u v : Sending} → Reach w u → Step u v → Reach w v

pub Reach-trans : {u v w : Sending} → Reach u v → Reach v w → Reach u w
Reach-trans r here = r
Reach-trans r (next s st) = next (Reach-trans r s) st
