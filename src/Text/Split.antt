-- ===== src/Text/Split.antt =====
-- Splitting a text at a character, and cutting it at the first one.
use inbox_angel_worker.Common.{
  ℕ, ◌≡◌, refl, sym, true, false, List, [], ◌∷◌, ◌++◌, map, reverse, Option, none, some, ◌==◌,
  ==_refl, keep, Bool, Bool-cases, inl, inr, All,
}
use mathlib.Core.List.{reverse-cons}
use inbox_angel_worker.Text.{
  Text, is_space, trim_start, trim, split_on, push_first, cut, cut_push, before,
}

-- The text has no character `c`.
abbrev pub Lacks : ℕ → Text → Type 0
Lacks c s = All (λ x. (x == c) ≡ false) s

pub split_on-Lacks : (c : ℕ) (s : Text) → Lacks c s → split_on c s ≡ s ∷ []
unfolding split_on
split_on-Lacks c [] h = refl
split_on-Lacks c (x ∷ s) (e, h) = rw (e, split_on-Lacks c s h)

pub split_on-append : (c : ℕ) (a b : Text) → Lacks c a → split_on c (a ++ c ∷ b) ≡ a ∷ split_on c b
unfolding split_on
split_on-append c [] b h = rw (==_refl c)
split_on-append c (x ∷ a) b (e, h) = rw (e, split_on-append c a b h)

push_first-All :
    (c x : ℕ) (ps : List Text)
    → (x == c) ≡ false
    → All (Lacks c) ps
    → All (Lacks c) (push_first x ps)
push_first-All c x [] e h = ((e, tt), tt)
push_first-All c x (p ∷ ps) e (h, hs) = ((e, h), hs)

-- No piece holds the separator.
pub split_on-All : (c : ℕ) (s : Text) → All (Lacks c) (split_on c s)
unfolding split_on
split_on-All c [] = (tt, tt)
split_on-All c (x ∷ s) = elim (Bool-cases (x == c)) [
  | inl e ↦ rw e (tt, split_on-All c s)
  | inr e ↦ rw e (push_first-All c x (split_on c s) e (split_on-All c s))
]

pub cut-append : (c : ℕ) (k v : Text) → Lacks c k → cut c (k ++ c ∷ v) ≡ some (k, v)
unfolding cut
cut-append c [] v h = rw (==_refl c)
cut-append c (x ∷ k) v (e, h) = rw (e, cut-append c k v h)

-- What stands before the cut, or all of the text.
abbrev pub head_of : Text → Option (Text × Text) → Text
head_of s none = s
head_of s (some (k, v)) = k

head_of-push :
    (x : ℕ) (s : Text) (o : Option (Text × Text)) → head_of (x ∷ s) (cut_push x o) ≡ x ∷ head_of s o
head_of-push x s none = refl
head_of-push x s (some (k, v)) = refl

pub before-cut : (c : ℕ) (s : Text) → before c s ≡ head_of s (cut c s)
unfolding before cut
before-cut c [] = refl
before-cut c (x ∷ s) = elim (Bool-cases (x == c)) [
  | inl e ↦ rw e refl
  | inr e ↦ rw (e, before-cut c s) (sym (head_of-push x s (cut c s)))
]

module _ {ℓ κ} {A : Type ℓ} (P : A → Type κ) where
  pub All-append : (xs ys : List A) → All P xs → All P ys → All P (xs ++ ys)
  All-append [] ys h k = k
  All-append (x ∷ xs) ys (p, h) k = (p, All-append xs ys h k)

  pub All-keep : (test : A → Bool) (xs : List A) → All P xs → All P (keep test xs)
  All-keep test [] h = tt
  All-keep test (x ∷ xs) (p, h) = elim (Bool-cases (test x)) [
    | inl e ↦ rw e (p, All-keep test xs h)
    | inr e ↦ rw e (All-keep test xs h)
  ]

pub keep-All {ℓ} :
    {A : Type ℓ} (test : A → Bool) (xs : List A) → All (λ x. test x ≡ true) (keep test xs)
keep-All test [] = tt
keep-All test (x ∷ xs) = elim (Bool-cases (test x)) [
  | inl e ↦ rw e (e, keep-All test xs)
  | inr e ↦ rw e (keep-All test xs)
]

trim_start-Lacks : (c : ℕ) (s : Text) → Lacks c s → Lacks c (trim_start s)
unfolding trim_start
trim_start-Lacks c [] h = tt
trim_start-Lacks c (x ∷ s) (e, h) = elim (Bool-cases (is_space x)) [
  | inl w ↦ rw w (trim_start-Lacks c s h)
  | inr w ↦ rw w (e, h)
]

reverse-All {ℓ κ} : {A : Type ℓ} (P : A → Type κ) (s : List A) → All P s → All P (reverse s)
reverse-All P [] h = tt
reverse-All P (x ∷ s) (p, h) =
    rw (reverse-cons x s) (All-append P (reverse s) (x ∷ []) (reverse-All P s h) (p, tt))

pub trim-Lacks : (c : ℕ) (s : Text) → Lacks c s → Lacks c (trim s)
unfolding trim
trim-Lacks c s h =
    let t = trim_start-Lacks c s h in
    reverse-All (λ x. (x == c) ≡ false) _
      (trim_start-Lacks c _ (reverse-All (λ x. (x == c) ≡ false) _ t))

pub map-trim-Lacks : (c : ℕ) (ps : List Text) → All (Lacks c) ps → All (Lacks c) (map trim ps)
map-trim-Lacks c [] h = tt
map-trim-Lacks c (p ∷ ps) (h, hs) = (trim-Lacks c p h, map-trim-Lacks c ps hs)
