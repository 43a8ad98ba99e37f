-- ===== src/Spf/Flatten/Covers.antt =====
-- packages/dns-checks/src/spf.ts: what the terms of a record ask of its flattening.
use mathlib.Core.Path.{subst}
use mathlib.Core.List.{Memᴰ}
use mathlib.Core.List.Memᴰ
use inbox_angel_worker.Common.{
  ◌≡◌, sym, refl, Bool, true, false, not, ◌&&◌, List, [], ◌∷◌, ◌++◌, Option, none, some, arith,
  if◌then◌else◌, some_of, All, Bool-cases, inl, inr,
}
use inbox_angel_worker.Text.{Text, codes, text_eq, to_lower, includes}
use inbox_angel_worker.Text.Equal.{text_eq_iff, text_eq_refl}
use inbox_angel_worker.Spf.{SpfTerm, parse_spf_terms, is_all, is_mechanism}
use inbox_angel_worker.Spf.Walk.{Resolver, one_record, fetch_spf_txt, target_of, has_macro}
use inbox_angel_worker.Spf.Flatten.{
  Collected, is_unfollowed, is_ip, is_followed_redirect, has_ip, add_ip, ip_entry, is_kept,
  keep_raw, keep_own, pinned,
}
use inbox_angel_worker.Spf.Flatten.Grows.{has_extra, Grows}

-- A term whose target is walked: a plain include, or a redirect of a record without `all`; no macro.
abbrev pub is_followed : Bool → SpfTerm → Bool
is_followed has_all t =
    if is_mechanism t.kind
    then text_eq t.name (codes "include") && not (is_unfollowed t)
    else is_followed_redirect has_all t && not (has_macro (target_of t.value))

abbrev pub follows_at : Text → SpfTerm → Bool
follows_at raw t = is_followed (some_of is_all (parse_spf_terms raw)) t

-- The names that the record at a name leads to.
pub data Leads (r : Resolver) : Text → Text → Type 0 where
  stays : (d : Text) → Leads r d d
  steps :
      (d e raw : Text) (t : SpfTerm)
      → fetch_spf_txt r d ≡ one_record raw
      → Memᴰ t (parse_spf_terms raw)
      → follows_at raw t ≡ true
      → Leads r (target_of t.value) e
      → Leads r d e

-- An include or a redirect that counts, but whose target is not walked.
abbrev pub is_left : Bool → SpfTerm → Bool
is_left has_all t =
    if is_mechanism t.kind
    then text_eq t.name (codes "include") && is_unfollowed t
    else is_followed_redirect has_all t && has_macro (target_of t.value)

-- A text is kept in lower case, unless it has a macro.
abbrev pub kept_key : Text → Text
kept_key raw = if includes (codes "%") raw then raw else to_lower raw

-- A term of the record at `d` as it means the same in the record at `root`.
abbrev pub own_text : Text → Text → SpfTerm → Option Text → Text
own_text root d t (some _) = t.raw
own_text root d t none = if text_eq d root then t.raw else pinned d t

-- What a term of the record at `d` asks of the flat one: an address is there as its entry; a term that
-- asks about a name, and a reference that is not followed, as texts.
abbrev pub HasTerm : Text → Text → Bool → Collected → SpfTerm → Type 0
HasTerm root d has_all out t =
    ((is_mechanism t.kind && is_ip t) ≡ true → has_ip (to_lower (ip_entry t)) out ≡ true)
    × ((is_mechanism t.kind && is_kept t) ≡ true
        → has_extra (kept_key (own_text root d t t.value)) out ≡ true)
    × (is_left has_all t ≡ true → has_extra (kept_key t.raw) out ≡ true)

-- There is one record, and its terms are collected.
abbrev pub IsCovered : Resolver → Text → Text → Collected → Type 0
IsCovered r root d out =
    (raw : Text) × (fetch_spf_txt r d ≡ one_record raw)
    × All (HasTerm root d (some_of is_all (parse_spf_terms raw)) out) (parse_spf_terms raw)

abbrev pub Result : Type 0
Result = Option Text × Collected

pub all_mem : (P : SpfTerm → Type 0) (ts : List SpfTerm) (t : SpfTerm) → All P ts → Memᴰ t ts → P t
all_mem P [] t h m = absurd (Memᴰ.not-nil m)
all_mem P (x ∷ xs) t (p, ps) (Memᴰ.head e) = subst P (sym e) p
all_mem P (x ∷ xs) t (p, ps) (Memᴰ.tail m) = all_mem P xs t ps m

pub added_ip : (entry : Text) (a : Collected) → has_ip (to_lower entry) (add_ip entry a) ≡ true
unfolding add_ip
added_ip entry a = elim (Bool-cases (has_ip (to_lower entry) a)) [
  | inl e ↦ rw (e, e) refl
  | inr e ↦ rw e (at_end a.ips)
]
  where
    at_end :
        (es : List Text)
        → some_of (λ x. text_eq (to_lower x) (to_lower entry)) (es ++ entry ∷ []) ≡ true
    at_end [] = rw (text_eq_refl (to_lower entry)) refl
    at_end (x ∷ xs) = ground (arith, at_end xs)

pub added_raw : (raw : Text) (a : Collected) → has_extra (kept_key raw) (keep_raw raw a) ≡ true
unfolding keep_raw
added_raw raw a = elim (Bool-cases (has_extra (kept_key raw) a)) [
  | inl e ↦ rw (e, e) refl
  | inr e ↦ rw e (at_end a.extra)
]
  where
    at_end : (es : List Text) → some_of (text_eq (kept_key raw)) (es ++ kept_key raw ∷ []) ≡ true
    at_end [] = rw (text_eq_refl (kept_key raw)) refl
    at_end (x ∷ xs) = ground (arith, at_end xs)

pub added_own :
    (root d : Text) (t : SpfTerm) (o : Option Text) (a : Collected)
    → has_extra (kept_key (own_text root d t o)) (keep_own root d t o a) ≡ true
added_own root d t none a = added_raw (if text_eq d root then t.raw else pinned d t) a
added_own root d t (some v) a = added_raw t.raw a

-- A name that is kept is no other.
pub kept_only :
    (t : SpfTerm)
    → is_kept t ≡ true
    → (is_ip t ≡ false)
      × (text_eq t.name (codes "include") ≡ false)
      × (text_eq t.name (codes "all") ≡ false)
kept_only t h = elim (Bool-cases (text_eq t.name (codes "a"))) [
  | inl e ↦ rw ((text_eq_iff t.name (codes "a")).0 e) (unfold text_eq in (refl, refl, refl))
  | inr e ↦ elim (Bool-cases (text_eq t.name (codes "mx"))) [
    | inl f ↦ rw ((text_eq_iff t.name (codes "mx")).0 f) (unfold text_eq in (refl, refl, refl))
    | inr f ↦ elim (Bool-cases (text_eq t.name (codes "ptr"))) [
      | inl k ↦ rw ((text_eq_iff t.name (codes "ptr")).0 k) (unfold text_eq in (refl, refl, refl))
      | inr k ↦
          rw ((text_eq_iff t.name (codes "exists")).0 (rw (e, f, k) at h))
            (unfold text_eq in (refl, refl, refl))
    ]
  ]
]

pub HasTerm-Grows :
    (root d : Text) (has_all : Bool) (a b : Collected) (t : SpfTerm)
    → Grows a b
    → HasTerm root d has_all a t
    → HasTerm root d has_all b t
HasTerm-Grows root d has_all a b t g (address, own, left) = (
  (λ h. g.kept (to_lower (ip_entry t)) (address h)),
  (λ h. g.extra (kept_key (own_text root d t t.value)) (own h)),
  (λ h. g.extra (kept_key t.raw) (left h)),
)
