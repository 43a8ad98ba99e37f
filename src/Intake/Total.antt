-- ===== src/Intake/Total.antt =====
-- packages/db/src/queries/intake.ts: the total of a day bounds what unknown reporters bring, however many
-- of them there are.
use mathlib.Core.Path.{subst}
use mathlib.Core.Option
use inbox_angel_worker.Common.{
  ℕ, suc, ◌-◌, ◌≤◌, ◌≡◌, ◌⊎◌, some_inj, refl, sym, max, Bool, true, false, not, ◌&&◌, ◌||◌, List,
  [], ◌∷◌, ◌++◌, Option, none, some, leb, ◌==◌, ==_refl, if◌then◌else◌, some_of, keep, find, change,
  length, arith, Bool-cases, inl, inr, &&-eq-true,
}
use inbox_angel_worker.Text.{Text, text_eq}
use inbox_angel_worker.Text.Equal.{text_eq_iff, text_eq_refl}
use inbox_angel_worker.Intake.{
  Usage, Slot, Allowance, total_row, is_unproven, is_row, is_day_row, is_unknown, least_used,
  lesser, drop_victim, overflow, make_room, has_allowance, new_usage, add_usage, count_at,
  count_usage, give_back,
}

module _ {A : Type 0} (p : A → Bool) where
  find-change :
      (test : A → Bool) (f : A → A) (xs : List A)
      → ((x : A) → test x ≡ true → (p x ≡ false) × (p (f x) ≡ false))
      → find p (change test f xs) ≡ find p xs
  find-change test f [] h = refl
  find-change test f (x ∷ xs) h = elim (Bool-cases (test x)) [
    | inl e ↦ rw (e, (h x e).0, (h x e).1) (find-change test f xs h)
    | inr e ↦ rw (e, find-change test f xs h) refl
  ]

  find-keep :
      (q : A → Bool) (xs : List A)
      → ((x : A) → q x ≡ false → p x ≡ false)
      → find p (keep q xs) ≡ find p xs
  find-keep q [] h = refl
  find-keep q (x ∷ xs) h = elim (Bool-cases (q x)) [
    | inl e ↦ rw (e, find-keep q xs h) refl
    | inr e ↦ rw (e, h x e) (find-keep q xs h)
  ]

  find_end :
      (xs : List A) (y : A)
      → find p xs ≡ none
      → find p (xs ++ y ∷ []) ≡ (if p y then some y else none)
  find_end [] y h = refl
  find_end (x ∷ xs) y h = ground (arith, find_end xs y)

  find_before : (xs : List A) (y : A) → p y ≡ false → find p (xs ++ y ∷ []) ≡ find p xs
  find_before [] y h = rw h refl
  find_before (x ∷ xs) y h = ground (arith, find_before xs y h)

abbrev pub reports_of : Option Usage → ℕ
reports_of none = 0
reports_of (some u) = u.reports

-- What stands in the total of the day.
abbrev pub total_of : Slot → List Usage → ℕ
total_of s us = reports_of (find (is_row s total_row) us)

lesser_ne :
    (u : Usage) (o : Option Usage)
    → text_eq u.reporter total_row ≡ false
    → ((v : Usage) → o ≡ some v → text_eq v.reporter total_row ≡ false)
    → text_eq (lesser u o).reporter total_row ≡ false
lesser_ne u none h hs = h
lesser_ne u (some v) h hs = ground (arith, hs v refl)

least_kept :
    (q : Usage → Bool) (us : List Usage)
    → ((u : Usage) → q u ≡ true → text_eq u.reporter total_row ≡ false)
    → (v : Usage) → least_used (keep q us) ≡ some v
    → text_eq v.reporter total_row ≡ false
least_kept q [] all v h = absurd (cc h)
least_kept q (u ∷ us) all v h = elim (Bool-cases (q u)) [
  | inr e ↦ least_kept q us all v (rw e at h)
  | inl e ↦
      subst (λ (w : Usage). text_eq w.reporter total_row ≡ false) (some_inj (rw e at h))
        (lesser_ne u (least_used (keep q us)) (all u e) (least_kept q us all))
]

and_false : (a b c : Bool) → c ≡ false → (a && (b && c)) ≡ false
and_false a b c h = ground arith

and_last : (a b c : Bool) → (a && (b && c)) ≡ true → c ≡ true
and_last a b c h = ground arith

module _ (s : Slot) where
  other_row :
      (reporter : Text) (u : Usage)
      → text_eq reporter total_row ≡ false
      → text_eq u.reporter reporter ≡ true
      → is_row s total_row u ≡ false
  other_row reporter u ne e =
      and_false (u.domain == s.domain) (text_eq u.day s.day) (text_eq u.reporter total_row)
        (subst (λ r. text_eq r total_row ≡ false) (sym ((text_eq_iff u.reporter reporter).0 e)) ne)

  pub counted_other :
      (reporter : Text) (b : ℕ) (a : Allowance) (us : List Usage)
      → text_eq reporter total_row ≡ false
      → find (is_row s total_row) (count_usage s reporter b a us).1 ≡ find (is_row s total_row) us
  unfolding count_usage
  counted_other reporter b a us ne = by_row (find (is_row s reporter) us)
    where
      by_row :
          (o : Option Usage)
          → find (is_row s total_row) (count_at s reporter b a o us).1
            ≡ find (is_row s total_row) us
      by_row none =
          find_before (is_row s total_row) us (new_usage s reporter b)
            (and_false (s.domain == s.domain) (text_eq s.day s.day) (text_eq reporter total_row) ne)
      by_row (some u) = elim (Bool-cases (has_allowance s b a u)) [
        | inr e ↦ rw e refl
        | inl e ↦ rw e (
            find-change (is_row s total_row) (is_row s reporter) (add_usage b) us (λ x t.
              let other = other_row reporter x ne (
                and_last (x.domain == s.domain) (text_eq x.day s.day) (text_eq x.reporter reporter)
                  t) in
              (other, other)))
      ]

  pub given_back_other :
      (reporter : Text) (b : ℕ) (us : List Usage)
      → text_eq reporter total_row ≡ false
      → find (is_row s total_row) (give_back s reporter b us) ≡ find (is_row s total_row) us
  unfolding give_back
  given_back_other reporter b us ne =
      find-change (is_row s total_row) (λ u. is_day_row s u && text_eq u.reporter reporter)
        (λ u. record u { reports = u.reports - 1; bytes = u.bytes - b }) us
        (λ x t.
          let other =
            other_row reporter x ne
              (&&-eq-true (is_day_row s x) (text_eq x.reporter reporter) t).1 in
          (other, other))

  least_other :
      (well_known : List Text) (us : List Usage) (v : Usage)
      → least_used (keep (is_unknown s false well_known) us) ≡ some v
      → text_eq v.reporter total_row ≡ false
  least_other well_known us v h =
      least_kept (is_unknown s false well_known) us (λ u k. ground (arith, k)) v h

  pub room_other :
      (well_known : List Text) (n : ℕ) (reporter : Text) (us : List Usage)
      → text_eq reporter total_row ≡ false
      → (text_eq (make_room s well_known n reporter us).0 total_row ≡ false)
        × (find (is_row s total_row) (make_room s well_known n reporter us).1
            ≡ find (is_row s total_row) us)
  unfolding make_room
  room_other well_known n reporter us ne =
      choose
        (some_of (λ u. is_day_row s u && text_eq u.reporter reporter) us
          || not (is_unproven reporter) && some_of (text_eq reporter) well_known)
        _ _ (ne, refl)
        (choose (leb n (length (keep (is_unknown s (is_unproven reporter) well_known) us))) _ _
          (by_kind (is_unproven reporter)) (ne, refl))
    where
      choose :
          (b : Bool) (x y : Text × List Usage)
          → (text_eq x.0 total_row ≡ false)
            × (find (is_row s total_row) x.1 ≡ find (is_row s total_row) us)
          → (text_eq y.0 total_row ≡ false)
            × (find (is_row s total_row) y.1 ≡ find (is_row s total_row) us)
          → (text_eq (if b then x else y).0 total_row ≡ false)
            × (find (is_row s total_row) (if b then x else y).1 ≡ find (is_row s total_row) us)
      choose true x y hx hy = hx
      choose false x y hx hy = hy

      dropped :
          (o : Option Usage)
          → ((v : Usage) → o ≡ some v → text_eq v.reporter total_row ≡ false)
          → find (is_row s total_row) (drop_victim s o us) ≡ find (is_row s total_row) us
      dropped none h = refl
      dropped (some v) h =
          find-keep (is_row s total_row)
            (λ u. not (is_day_row s u && text_eq u.reporter v.reporter)) us
            (λ x k. other_row v.reporter x (h v refl) (ground (arith, k)))

      by_kind :
          (unproven : Bool)
          → (text_eq (overflow s well_known reporter unproven us).0 total_row ≡ false)
            × (find (is_row s total_row) (overflow s well_known reporter unproven us).1
                ≡ find (is_row s total_row) us)
      by_kind true = (unfold text_eq in refl, refl)
      by_kind false = (ne, dropped _ (least_other well_known us))

  own_row : (b : ℕ) → is_row s total_row (new_usage s total_row b) ≡ true
  own_row b = rw (==_refl s.domain, text_eq_refl s.day, text_eq_refl total_row) refl

  find_bump :
      (b : ℕ) (us : List Usage)
      → find (is_row s total_row) (change (is_row s total_row) (add_usage b) us)
        ≡ Option.map (add_usage b) (find (is_row s total_row) us)
  find_bump b [] = refl
  find_bump b (u ∷ us) = elim (Bool-cases (is_row s total_row u)) [
    | inl e ↦ rw (e, e) refl
    | inr e ↦ rw (e, e) (find_bump b us)
  ]

  -- The total grows by one, or the row was not there; it stays within the allowance.
  pub counted_total :
      (b : ℕ) (a : Allowance) (us : List Usage)
      → (((count_usage s total_row b a us).0 ≡ true)
          × (total_of s (count_usage s total_row b a us).1 ≡ suc (total_of s us))
          × (suc (total_of s us) ≤ max 1 a.max_reports))
        ⊎ (((count_usage s total_row b a us).0 ≡ false) × ((count_usage s total_row b a us).1 ≡ us))
  unfolding count_usage
  counted_total b a us = by_row (find (is_row s total_row) us) refl
    where
      by_row :
          (o : Option Usage)
          → find (is_row s total_row) us ≡ o
          → (((count_at s total_row b a o us).0 ≡ true)
              × (total_of s (count_at s total_row b a o us).1 ≡ suc (total_of s us))
              × (suc (total_of s us) ≤ max 1 a.max_reports))
            ⊎ (((count_at s total_row b a o us).0 ≡ false)
                × ((count_at s total_row b a o us).1 ≡ us))
      by_row none e = inl (
        refl,
        rw (find_end (is_row s total_row) us (new_usage s total_row b) e, e, own_row b) refl,
        rw e (omega arith),
      )
      by_row (some u) e = elim (Bool-cases (has_allowance s b a u)) [
        | inr k ↦ rw k (inr (refl, refl))
        | inl k ↦ rw k (inl (refl, rw (find_bump b us, e) refl, rw e (ground (arith, k))))
      ]
