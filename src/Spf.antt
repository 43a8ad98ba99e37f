-- ===== src/Spf.antt =====
-- packages/dns-checks/src/spf.ts, parsing: the terms of an SPF record. A regular expression is the
-- function that it decides.
pub mod Walk
pub mod Limits
pub mod Status
pub mod Flatten
mod Tests
use mathlib.Core.Option
use inbox_angel_worker.Common.{
  ℕ, Bool, true, false, not, ◌&&◌, ◌||◌, List, [], ◌∷◌, ◌++◌, map, Option, none, some, leb, ◌==◌,
  if◌then◌else◌, some_of, keep, find,
}
use inbox_angel_worker.Common.Int.{ℤ}
use inbox_angel_worker.Text.{
  Text, codes, text_eq, to_lower, trim, is_empty, is_space, is_digit, starts_with, split_on, cut,
  push_first, parse_int,
}

pub data SpfQualifier : Type 0 where
  plus minus tilde question : SpfQualifier

pub data TermKind : Type 0 where
  mechanism modifier : TermKind

pub record SpfTerm : Type 0 where
  pub raw : Text
  pub kind : TermKind
  pub name : Text
  pub qualifier : SpfQualifier
  pub value : Option Text
  pub cidr4 : Option ℤ
  pub cidr6 : Option ℤ

pub data Verdict : Type 0 where
  strict soft open_to_all missing : Verdict

pub record SpfRecord : Type 0 where
  pub raw : Text
  pub mechanisms : List Text
  pub terms : List SpfTerm
  pub verdict : Verdict

abbrev pub starts_space : Text → Bool
starts_space [] = true
starts_space (c ∷ _) = is_space c

abbrev pub drop_text : Text → Text → Text
drop_text [] s = s
drop_text (_ ∷ p) [] = []
drop_text (_ ∷ p) (_ ∷ s) = drop_text p s

abbrev pub version : Text
version = codes "v=spf1"

unfoldable pub is_spf_record : Text → Bool
is_spf_record txt =
    starts_with version (to_lower (trim txt)) && starts_space (drop_text version (trim txt))

abbrev pub split_spaces : Text → List Text
split_spaces [] = [] ∷ []
split_spaces (c ∷ s) =
    let rest = split_spaces s in if is_space c then [] ∷ rest else push_first c rest

-- `s.trim().split(/\s+/)`.
unfoldable pub words : Text → List Text
words s =
    if is_empty (trim s) then [] ∷ [] else keep (λ w. not (is_empty w)) (split_spaces (trim s))

abbrev pub is_alpha : ℕ → Bool
is_alpha c = leb b'a' c && leb c b'z' || leb b'A' c && leb c b'Z'

abbrev pub is_alnum : ℕ → Bool
is_alnum c = is_alpha c || is_digit c

abbrev pub is_name_code : ℕ → Bool
is_name_code c = is_alnum c || (c == b'.' || (c == b'_' || c == b'-'))

abbrev pub is_modifier_name : Text → Bool
is_modifier_name [] = false
is_modifier_name (c ∷ s) = is_alpha c && not (some_of (λ d. not (is_name_code d)) s)

abbrev pub plain_term : Text → TermKind → Text → SpfQualifier → Option Text → SpfTerm
plain_term raw k name q v = record {
  raw = raw;
  kind = k;
  name = name;
  qualifier = q;
  value = v;
  cidr4 = none;
  cidr6 = none;
}

-- `[A-Za-z0-9]+` at the start, and what follows it.
abbrev pub push_name : ℕ → Text × Text → Text × Text
push_name c (n, rest) = (c ∷ n, rest)

abbrev pub span_name : Text → Text × Text
span_name [] = ([], [])
span_name (c ∷ s) = let rest = span_name s in if is_alnum c then push_name c rest else ([], c ∷ s)

pub record Cidr : Type 0 where
  pub host : Text
  pub len4 : Option ℤ
  pub len6 : Option ℤ

abbrev pub all_digits : Text → Bool
all_digits s = not (is_empty s) && not (some_of (λ c. not (is_digit c)) s)

abbrev pub cidr : Text → Option ℤ → Option ℤ → Cidr
cidr h a b = record { host = h; len4 = a; len6 = b }

abbrev pub cidr_of : Text → List Text → Cidr
cidr_of s (h ∷ []) = cidr h none none
cidr_of s (h ∷ a ∷ []) = if all_digits a then cidr h (parse_int a) none else cidr s none none
cidr_of s (h ∷ a ∷ b ∷ []) =
    if is_empty a && all_digits b then cidr h none (parse_int b) else cidr s none none
cidr_of s (h ∷ a ∷ b ∷ c ∷ []) =
    if all_digits a && (is_empty b && all_digits c)
    then cidr h (parse_int a) (parse_int c)
    else cidr s none none
cidr_of s _ = cidr s none none

unfoldable pub parse_cidr : Text → Cidr
parse_cidr s = cidr_of s (split_on b'/' s)

abbrev pub is_address : Text → Bool
is_address name = text_eq name (codes "a") || text_eq name (codes "mx")

abbrev pub with_cidr : SpfTerm → Cidr → SpfTerm
with_cidr t c = record t { cidr4 = c.len4; cidr6 = c.len6 }

-- The value after the name of a mechanism.
unfoldable pub read_value : SpfTerm → ℕ → Text → SpfTerm
read_value t sep rest =
    if sep == b':'
    then (if is_address t.name
        then with_cidr (record t { value = some (parse_cidr rest).host }) (parse_cidr rest)
        else record t { value = some rest })
    else if is_address t.name
    then with_cidr t (parse_cidr (b'/' ∷ rest))
    else t

abbrev pub read_rest : Text → SpfQualifier → Text → Text × Text → SpfTerm
read_rest token q s (n, []) = plain_term token mechanism (to_lower s) q none
read_rest token q s (n, c ∷ rest) =
    if not (is_empty n) && (c == b':' || c == b'/')
    then read_value (plain_term token mechanism (to_lower n) q none) c rest
    else plain_term token mechanism (to_lower s) q none

abbrev pub qualifier_of : ℕ → Option SpfQualifier
qualifier_of c =
    if c == b'+'
    then some plus
    else if c == b'-'
    then some minus
    else if c == b'~'
    then some tilde
    else if c == b'?'
    then some question
    else none

unfoldable pub parse_mechanism : Text → SpfTerm
parse_mechanism [] = plain_term [] mechanism [] plus none
parse_mechanism (c ∷ s) = elim (qualifier_of c) [
  | none ↦ read_rest (c ∷ s) plus (c ∷ s) (span_name (c ∷ s))
  | some q ↦ read_rest (c ∷ s) q s (span_name s)
]

abbrev pub modifier_or : Text → Option (Text × Text) → SpfTerm
modifier_or token none = parse_mechanism token
modifier_or token (some (k, v)) =
    if is_modifier_name k
    then plain_term token modifier (to_lower k) plus (some v)
    else parse_mechanism token

unfoldable pub parse_term : Text → SpfTerm
parse_term token = modifier_or token (cut b'=' token)

abbrev pub rest_of {ℓ} : {A : Type ℓ} → List A → List A
rest_of [] = []
rest_of (_ ∷ xs) = xs

unfoldable pub parse_spf_terms : Text → List SpfTerm
parse_spf_terms raw = map parse_term (keep (λ w. not (is_empty w)) (rest_of (words raw)))

abbrev pub is_mechanism : TermKind → Bool
is_mechanism mechanism = true
is_mechanism modifier = false

abbrev pub is_all : SpfTerm → Bool
is_all t = is_mechanism t.kind && text_eq t.name (codes "all")

abbrev pub verdict_of : SpfQualifier → Verdict
verdict_of minus = strict
verdict_of tilde = soft
verdict_of _ = open_to_all

unfoldable pub parse_spf_record : Text → SpfRecord
parse_spf_record raw =
    let terms' = parse_spf_terms raw in
    record {
      raw = raw;
      mechanisms = map to_lower (keep (λ p. not (text_eq (to_lower p) version)) (words raw));
      terms = terms';
      verdict = elim (find is_all terms') [ none ↦ missing | some t ↦ verdict_of t.qualifier ];
    }

abbrev pub lookup_names : List Text
lookup_names = codes "include" ∷ codes "a" ∷ codes "mx" ∷ codes "ptr" ∷ codes "exists" ∷ []

unfoldable pub term_counts_as_lookup : SpfTerm → Bool
term_counts_as_lookup t =
    if is_mechanism t.kind
    then some_of (text_eq t.name) lookup_names
    else text_eq t.name (codes "redirect")
