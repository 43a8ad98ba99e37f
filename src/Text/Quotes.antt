-- ===== src/Text/Quotes.antt =====
-- What the removal of a closing quote leaves alone.
use inbox_angel_worker.Common.{
  ℕ, ◌≡◌, refl, sym, false, [], ◌∷◌, ◌++◌, Option, none, some, ◌==◌, Bool-cases, inl, inr, ap,
  arith,
}
use inbox_angel_worker.Text.{Text, strip_end, cut, cut_push}
use inbox_angel_worker.Text.Split.{Lacks}

pub strip_end-append :
    (a b : Text) (c : ℕ) → (c == b'"') ≡ false → strip_end (a ++ c ∷ b) ≡ a ++ c ∷ strip_end b
unfolding strip_end
strip_end-append [] [] c e = rw e
strip_end-append [] (y ∷ b) c e = refl
strip_end-append (x ∷ []) b c e = ap (λ s. x ∷ s) (strip_end-append [] b c e)
strip_end-append (x ∷ y ∷ a) b c e = ap (λ s. x ∷ s) (strip_end-append (y ∷ a) b c e)

pub strip_end-Lacks : (c : ℕ) (s : Text) → Lacks c s → Lacks c (strip_end s)
unfolding strip_end
strip_end-Lacks c [] h = tt
strip_end-Lacks c (x ∷ []) h = elim (Bool-cases (x == b'"')) [ inl e ↦ rw e tt | inr e ↦ rw e h ]
strip_end-Lacks c (x ∷ y ∷ s) (e, h) = (e, strip_end-Lacks c (y ∷ s) h)

-- A closing quote goes from the value, never from the name before it.
abbrev pub strip_value : Option (Text × Text) → Option (Text × Text)
strip_value none = none
strip_value (some (k, v)) = some (k, strip_end v)

strip_value-push :
    (x : ℕ) (o : Option (Text × Text)) → strip_value (cut_push x o) ≡ cut_push x (strip_value o)
strip_value-push x none = refl
strip_value-push x (some (k, v)) = refl

pub cut-strip_end :
    (c : ℕ) (s : Text) → (b'"' == c) ≡ false → cut c (strip_end s) ≡ strip_value (cut c s)
unfolding cut strip_end
cut-strip_end c [] e = refl
cut-strip_end c (x ∷ []) e = ground arith
cut-strip_end c (x ∷ y ∷ s) e = elim (Bool-cases (x == c)) [
  | inl f ↦ rw f refl
  | inr f ↦ rw (f, cut-strip_end c (y ∷ s) e) (sym (strip_value-push x (cut c (y ∷ s))))
]
