-- ===== src/Rollout/Tags.antt =====
-- src/dmarc/rollout.ts, `parseDmarcTags`: the first-wins map of tags, read part by part.
use inbox_angel_worker.Common.{
  ◌≡◌, refl, ◌∙◌, ap, false, List, [], ◌∷◌, ◌++◌, Option, none, some, arith, if◌then◌else◌, All,
  Option-cases, inl, inr,
}
use inbox_angel_worker.Text.{
  Text, codes, text_eq, to_lower, trim, is_empty, split_on, push_first, cut, cut_push, join,
  strip_quotes, strip_end,
}
use inbox_angel_worker.Text.Equal.{text_eq_iff}
use inbox_angel_worker.Text.Split.{Lacks, split_on-append, split_on-Lacks}
use inbox_angel_worker.Text.Quotes.{strip_end-append, strip_end-Lacks, strip_value, cut-strip_end}
use inbox_angel_worker.Rollout.{Tags, get_tag, set_new, read_part, read_parts, parse_dmarc_tags}

abbrev pub or_else {ℓ} : {A : Type ℓ} → Option A → Option A → Option A
or_else none o = o
or_else (some a) o = some a

pub or_else_assoc {ℓ} :
    {A : Type ℓ} (a b c : Option A) → or_else (or_else a b) c ≡ or_else a (or_else b c)
or_else_assoc none b c = refl
or_else_assoc (some a) b c = refl

pub or_else-none {ℓ} : {A : Type ℓ} (a : Option A) → a ≡ or_else a none
or_else-none none = refl
or_else-none (some a) = refl

-- The value that a cut part gives to the tag `k`.
abbrev value_for : Text → Option (Text × Text) → Option Text
value_for k none = none
value_for k (some (j, v)) = if text_eq (to_lower (trim j)) k then some (trim v) else none

abbrev pub tag_in : Text → Text → Option Text
tag_in k part = value_for k (cut b'=' part)

-- The value of the first part that has the tag `k`.
abbrev pub first_tag : Text → List Text → Option Text
first_tag k [] = none
first_tag k (part ∷ parts) = or_else (tag_in k part) (first_tag k parts)

get_tag-append :
    (k j v : Text) (m : Tags)
    → get_tag k (m ++ (j, v) ∷ []) ≡ or_else (get_tag k m) (if text_eq j k then some v else none)
unfolding get_tag
get_tag-append k j v [] = refl
get_tag-append k j v ((i, w) ∷ m) = ground (arith, get_tag-append k j v m)

get_tag-set_new :
    (k j v : Text) (m : Tags)
    → is_empty k ≡ false
    → get_tag k (set_new j v m) ≡ or_else (get_tag k m) (if text_eq j k then some v else none)
unfolding set_new
get_tag-set_new k j v m ne = ground (arith, get_tag-append k j v m, text_eq_iff j k)

get_tag-read_part :
    (k part : Text) (m : Tags)
    → is_empty k ≡ false
    → get_tag k (read_part part m) ≡ or_else (get_tag k m) (tag_in k part)
unfolding read_part
get_tag-read_part k part m ne = elim (Option-cases (cut b'=' part)) [
  | inl e ↦ rw (e, read_part) (or_else-none (get_tag k m))
  | inr ((j, v), e) ↦ rw (e, read_part) (get_tag-set_new k (to_lower (trim j)) (trim v) m ne)
]

get_tag-read_parts :
    (k : Text) (parts : List Text) (m : Tags)
    → is_empty k ≡ false
    → get_tag k (read_parts m parts) ≡ or_else (get_tag k m) (first_tag k parts)
unfolding read_parts
get_tag-read_parts k [] m ne = ground arith
get_tag-read_parts k (part ∷ parts) m ne =
    get_tag-read_parts k parts (read_part part m) ne
    ∙ ap (λ o. or_else o (first_tag k parts)) (get_tag-read_part k part m ne)
    ∙ or_else_assoc (get_tag k m) (tag_in k part) (first_tag k parts)

-- The map holds, for each name, the value of the first part with that name.
pub get_tag-parse :
    (k record' : Text)
    → is_empty k ≡ false
    → get_tag k (parse_dmarc_tags record') ≡ first_tag k (split_on b';' (strip_quotes record'))
unfolding parse_dmarc_tags get_tag
get_tag-parse k record' ne = get_tag-read_parts k (split_on b';' (strip_quotes record')) [] ne

-- White space before a part's name does not count.
value_for-space :
    (k : Text) (o : Option (Text × Text)) → value_for k (cut_push 32 o) ≡ value_for k o
unfolding trim
value_for-space k none = refl
value_for-space k (some (j, v)) = refl

tag_in-space : (k part : Text) → tag_in k (32 ∷ part) ≡ tag_in k part
unfolding cut
tag_in-space k part = value_for-space k (cut b'=' part)

first_tag-space : (k : Text) (ps : List Text) → first_tag k (push_first 32 ps) ≡ first_tag k ps
unfolding cut
first_tag-space k [] = refl
first_tag-space k (p ∷ ps) = ap (λ o. or_else o (first_tag k ps)) (tag_in-space k p)

-- The value of `k` in the parts of a joined text, once its closing quote is gone.
abbrev pub joined_tag : Text → List Text → Option Text
joined_tag k ps = first_tag k (split_on b';' (strip_end (join (codes "; ") ps)))

joined_tag-space :
    (k rest : Text)
    → first_tag k (split_on b';' (strip_end (32 ∷ rest)))
      ≡ first_tag k (split_on b';' (strip_end rest))
unfolding split_on
joined_tag-space k rest =
    rw (strip_end-append [] rest 32 refl) (first_tag-space k (split_on b';' (strip_end rest)))

joined_tag-more :
    (k p q : Text) (ps : List Text)
    → Lacks b';' p
    → joined_tag k (p ∷ q ∷ ps) ≡ or_else (tag_in k p) (joined_tag k (q ∷ ps))
unfolding join
joined_tag-more k p q ps h =
    let rest = join (codes "; ") (q ∷ ps) in
    rw (strip_end-append p (32 ∷ rest) b';' refl, split_on-append b';' p (strip_end (32 ∷ rest)) h)
      (ap (or_else (tag_in k p)) (joined_tag-space k rest))

joined_tag-one :
    (k p : Text) → Lacks b';' p → joined_tag k (p ∷ []) ≡ or_else (tag_in k (strip_end p)) none
unfolding join
joined_tag-one k p h = rw (split_on-Lacks b';' (strip_end p) (strip_end-Lacks b';' p h))

pub joined_tag-cons :
    (k p : Text) (ps : List Text)
    → Lacks b';' p
    → strip_end p ≡ p
    → joined_tag k (p ∷ ps) ≡ or_else (tag_in k p) (joined_tag k ps)
joined_tag-cons k p [] h e =
    joined_tag-one k p h ∙ rw e (unfold split_on strip_end cut join in refl)
joined_tag-cons k p (q ∷ qs) h e = joined_tag-more k p q qs h

value_for-strip :
    (k : Text) (o : Option (Text × Text))
    → value_for k o ≡ none
    → value_for k (strip_value o) ≡ none
value_for-strip k none h = refl
value_for-strip k (some (j, v)) h = ground arith

tag_in-strip_end : (k p : Text) → tag_in k p ≡ none → tag_in k (strip_end p) ≡ none
tag_in-strip_end k p h = rw (cut-strip_end b'=' p refl) (value_for-strip k (cut b'=' p) h)

-- No part has the tag `k`, so neither has the text that they make.
pub joined_tag-none :
    (k : Text) (ps : List Text)
    → All (Lacks b';') ps
    → All (λ p. tag_in k p ≡ none) ps
    → joined_tag k ps ≡ none
joined_tag-none k [] h n = unfold split_on strip_end cut join in refl
joined_tag-none k (p ∷ []) h n = joined_tag-one k p h.0 ∙ rw (tag_in-strip_end k p n.0)
joined_tag-none k (p ∷ q ∷ ps) h n =
    joined_tag-more k p q ps h.0 ∙ rw (n.0) (joined_tag-none k (q ∷ ps) h.1 n.1)
