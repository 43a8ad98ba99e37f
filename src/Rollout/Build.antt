-- ===== src/Rollout/Build.antt =====
-- src/dmarc/rollout.ts, `buildStepRecord`: the record that is built, read back by `parseDmarcTags`.
use inbox_angel_worker.Common.{
  ◌≡◌, refl, sym, ◌∙◌, ap, false, true, Bool, not, List, [], ◌∷◌, ◌++◌, map, none, some, arith,
  ◌==◌, if◌then◌else◌, All, keep, Option-cases, inl, inr,
}
use inbox_angel_worker.Text.{
  Text, codes, text_eq, to_lower, trim, trim_start, is_space, is_empty, split_on, cut, join,
  strip_quotes, strip_end,
}
use inbox_angel_worker.Text.Split.{
  Lacks, split_on-All, before-cut, head_of, All-keep, keep-All, map-trim-Lacks, All-append,
}
use inbox_angel_worker.Text.Quotes.{strip_end-append}
use inbox_angel_worker.Rollout.{
  RolloutPolicy, p_none, quarantine, reject, RolloutStep, Tags, policy_text, get_tag,
  parse_dmarc_tags, unmanaged, part_key, other_parts, step_tags, tag_text, keep_stricter,
  build_step_record, testing_would_weaken, effective_policies, step_index_for_record, pct_of,
  is_testing_tag,
}
use inbox_angel_worker.Rollout.Steps.{
  as_policy-policy_text, step_number, testing_mode, step_index_for_lem,
}
use inbox_angel_worker.Rollout.Tags.{
  or_else, or_else_assoc, or_else-none, tag_in, first_tag, get_tag-parse, joined_tag,
  joined_tag-cons, joined_tag-none,
}

-- The names of the parts that are kept are not those that the code writes.
abbrev IsManaged : Text → Type 0
IsManaged k = (part : Text) → unmanaged part ≡ true → text_eq (part_key part) k ≡ false

tag_in-unmanaged : (k part : Text) → IsManaged k → unmanaged part ≡ true → tag_in k part ≡ none
unfolding part_key
tag_in-unmanaged k part mk h = elim (Option-cases (cut b'=' part)) [
  | inl e ↦ rw e
  | inr ((j, v), e) ↦
      let key : part_key part ≡ to_lower (trim j) =
        ap (λ s. to_lower (trim s)) (before-cut b'=' part ∙ ap (head_of part) e) in
      let other : text_eq (to_lower (trim j)) k ≡ false = rw (← key) (mk part h) in rw (e, other)
]

other_parts-Lacks : (existing : Text) → All (Lacks b';') (other_parts existing)
unfolding other_parts
other_parts-Lacks existing =
    All-keep (Lacks b';') unmanaged _ (
      All-keep (Lacks b';') _ _ (map-trim-Lacks b';' _ (split_on-All b';' (strip_quotes existing))))

other_parts-unmanaged : (existing : Text) → All (λ p. unmanaged p ≡ true) (other_parts existing)
unfolding other_parts
other_parts-unmanaged existing =
    keep-All unmanaged
      (keep (λ p. not (is_empty p)) (map trim (split_on b';' (strip_quotes existing))))

All-map-none :
    (k : Text) (ps : List Text)
    → IsManaged k
    → All (λ p. unmanaged p ≡ true) ps
    → All (λ p. tag_in k p ≡ none) ps
All-map-none k [] mk h = tt
All-map-none k (p ∷ ps) mk (h, hs) = (tag_in-unmanaged k p mk h, All-map-none k ps mk hs)

other_parts-none : (k existing : Text) → IsManaged k → joined_tag k (other_parts existing) ≡ none
other_parts-none k existing mk =
    joined_tag-none k (other_parts existing) (other_parts-Lacks existing)
      (All-map-none k (other_parts existing) mk (other_parts-unmanaged existing))

IsManaged-p : IsManaged (codes "p")
unfolding unmanaged
IsManaged-p part h = ground arith

IsManaged-sp : IsManaged (codes "sp")
unfolding unmanaged
IsManaged-sp part h = ground arith

IsManaged-np : IsManaged (codes "np")
unfolding unmanaged
IsManaged-np part h = ground arith

IsManaged-t : IsManaged (codes "t")
unfolding unmanaged
IsManaged-t part h = ground arith

IsManaged-pct : IsManaged (codes "pct")
unfolding unmanaged
IsManaged-pct part h = ground arith

-- A written part stays one part, with its last character.
abbrev IsPart : Text × Text → Type 0
IsPart kv = Lacks b';' (tag_text kv) × (strip_end (tag_text kv) ≡ tag_text kv)

policy_text-IsPart : (k : Text) (p : RolloutPolicy) → Lacks b';' k → IsPart (k, policy_text p)
unfolding tag_text
policy_text-IsPart k p h = (
  All-append (λ x. (x == b';') ≡ false) k _ h (refl, policy_Lacks p),
  strip_end-append k (policy_text p) b'=' refl ∙ ap (λ v. k ++ b'=' ∷ v) (policy_end p),
)
  where
    policy_Lacks : (q : RolloutPolicy) → Lacks b';' (policy_text q)
    policy_Lacks p_none = ground arith
    policy_Lacks quarantine = ground arith
    policy_Lacks reject = ground arith

    policy_end : (q : RolloutPolicy) → strip_end (policy_text q) ≡ policy_text q
    policy_end p_none = unfold strip_end in refl
    policy_end quarantine = unfold strip_end in refl
    policy_end reject = unfold strip_end in refl

joined_tag-map :
    (k : Text) (kvs : List (Text × Text)) (ps : List Text)
    → All IsPart kvs
    → joined_tag k (map tag_text kvs ++ ps)
      ≡ or_else (first_tag k (map tag_text kvs)) (joined_tag k ps)
joined_tag-map k [] ps h = refl
joined_tag-map k (kv ∷ kvs) ps ((lacks, same), h) =
    joined_tag-cons k (tag_text kv) (map tag_text kvs ++ ps) lacks same
    ∙ ap (or_else (tag_in k (tag_text kv))) (joined_tag-map k kvs ps h)
    ∙ sym
        (or_else_assoc (tag_in k (tag_text kv)) (first_tag k (map tag_text kvs)) (joined_tag k ps))

-- The tags that the code writes, for three policies and a testing mode.
abbrev pub written : RolloutPolicy → RolloutPolicy → RolloutPolicy → Bool → List (Text × Text)
written p sp np t =
    (codes "v", codes "DMARC1")
    ∷ (codes "p", policy_text p)
    ∷ (codes "sp", policy_text sp)
    ∷ (codes "np", policy_text np)
    ∷ (if t then (codes "t", codes "y") ∷ [] else [])

written-IsPart : (p sp np : RolloutPolicy) (t : Bool) → All IsPart (written p sp np t)
written-IsPart p sp np t = (
  version_IsPart,
  (
    policy_text-IsPart (codes "p") p (refl, tt),
    (
      policy_text-IsPart (codes "sp") sp (refl, (refl, tt)),
      (policy_text-IsPart (codes "np") np (refl, (refl, tt)), mode_IsPart t),
    ),
  ),
)
  where
    version_IsPart : IsPart (codes "v", codes "DMARC1")
    version_IsPart = unfold tag_text strip_end in (ground arith, refl)

    mode_IsPart : (b : Bool) → All IsPart (if b then (codes "t", codes "y") ∷ [] else [])
    mode_IsPart true = unfold tag_text strip_end in ((ground arith, refl), tt)
    mode_IsPart false = tt

reads : Unit {0}
unfolding cut trim to_lower text_eq tag_text is_space trim_start
reads = tt

first_p :
    (p sp np : RolloutPolicy) (t : Bool)
    → first_tag (codes "p") (map tag_text (written p sp np t)) ≡ some (policy_text p)
unfolding reads
first_p p_none sp np t = refl
first_p quarantine sp np t = refl
first_p reject sp np t = refl

first_sp :
    (p sp np : RolloutPolicy) (t : Bool)
    → first_tag (codes "sp") (map tag_text (written p sp np t)) ≡ some (policy_text sp)
unfolding reads
first_sp p p_none np t = refl
first_sp p quarantine np t = refl
first_sp p reject np t = refl

first_np :
    (p sp np : RolloutPolicy) (t : Bool)
    → first_tag (codes "np") (map tag_text (written p sp np t)) ≡ some (policy_text np)
unfolding reads
first_np p sp p_none t = refl
first_np p sp quarantine t = refl
first_np p sp reject t = refl

first_t :
    (p sp np : RolloutPolicy) (t : Bool)
    → first_tag (codes "t") (map tag_text (written p sp np t))
      ≡ (if t then some (codes "y") else none)
unfolding reads
first_t p sp np true = refl
first_t p sp np false = refl

first_pct :
    (p sp np : RolloutPolicy) (t : Bool)
    → first_tag (codes "pct") (map tag_text (written p sp np t)) ≡ none
unfolding reads
first_pct p sp np true = refl
first_pct p sp np false = refl

pct_of-none : (m : Tags) → get_tag (codes "pct") m ≡ none → pct_of m ≡ none
unfolding pct_of
pct_of-none m h = rw (h, pct_of)

is_testing_tag-mode :
    (m : Tags) (t : Bool)
    → get_tag (codes "t") m ≡ (if t then some (codes "y") else none)
    → is_testing_tag m ≡ t
unfolding is_testing_tag
is_testing_tag-mode m true h = rw (h, is_testing_tag)
is_testing_tag-mode m false h = rw (h, is_testing_tag)

plain_mode :
    (q : RolloutPolicy) (b : Bool)
    → some (step_number q (testing_mode q none b)) ≡ some (step_number q b)
plain_mode p_none b = refl
plain_mode quarantine true = refl
plain_mode quarantine false = refl
plain_mode reject true = refl
plain_mode reject false = refl

module _ (p sp np : RolloutPolicy) (t : Bool) (existing : Text) where
  abbrev pub record_text : Text
  record_text = join (codes "; ") (map tag_text (written p sp np t) ++ other_parts existing)

  written_tag :
      (k : Text)
      → is_empty k ≡ false
      → IsManaged k
      → get_tag k (parse_dmarc_tags record_text) ≡ first_tag k (map tag_text (written p sp np t))
  unfolding tag_text join strip_quotes
  written_tag k ne mk =
      get_tag-parse k record_text ne
      ∙ joined_tag-map k (written p sp np t) (other_parts existing) (written-IsPart p sp np t)
      ∙ ap (or_else (first_tag k (map tag_text (written p sp np t))))
          (other_parts-none k existing mk)
      ∙ sym (or_else-none _)

  pub record_text-policies :
      effective_policies (parse_dmarc_tags record_text) ≡ record { p = p; sp = sp; np = np }
  unfolding effective_policies
  record_text-policies = rw (
    written_tag (codes "p") refl IsManaged-p ∙ first_p p sp np t,
    written_tag (codes "sp") refl IsManaged-sp ∙ first_sp p sp np t,
    written_tag (codes "np") refl IsManaged-np ∙ first_np p sp np t,
    as_policy-policy_text p,
    as_policy-policy_text sp,
    as_policy-policy_text np,
  )

  pub record_text-pct : pct_of (parse_dmarc_tags record_text) ≡ none
  record_text-pct =
      pct_of-none _ (written_tag (codes "pct") refl IsManaged-pct ∙ first_pct p sp np t)

  pub record_text-testing : is_testing_tag (parse_dmarc_tags record_text) ≡ t
  record_text-testing =
      is_testing_tag-mode _ t (written_tag (codes "t") refl IsManaged-t ∙ first_t p sp np t)

  pub record_text-index : step_index_for_record record_text ≡ some (step_number p t)
  unfolding step_index_for_record
  record_text-index =
      rw
        (
          written_tag (codes "p") refl IsManaged-p ∙ first_p p sp np t,
          record_text-pct,
          record_text-testing,
        )
        (step_index_for_lem (policy_text p) none t p (as_policy-policy_text p) ∙ plain_mode p t)

-- A step that weakens nothing is built as the text of its tags and the kept parts.
pub build_step_record_lem :
    (existing : Text) (s : RolloutStep)
    → testing_would_weaken existing s ≡ false
    → let eff = effective_policies (parse_dmarc_tags existing) in
      build_step_record existing s
      ≡ some (
          record_text s.policy
            (keep_stricter eff.sp s.policy)
            (keep_stricter eff.np s.policy)
            s.testing
            existing)
unfolding build_step_record step_tags
build_step_record_lem existing s h = rw h
