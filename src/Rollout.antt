-- ===== src/Rollout.antt =====
-- src/dmarc/rollout.ts: the staged rollout of a DMARC policy. A step index is `none` where the code
-- returns -1, and a thrown error is `none`. A note is a constructor for each message of the code, with
-- the values that the message quotes.
pub mod Tags
pub mod Steps
pub mod Build
pub mod Safety
pub mod Progress
mod Tests
use mathlib.Core.Option
use mathlib.Core.Option.{get_or}
use inbox_angel_worker.Common.{
  ℕ, zero, suc, ◌+◌, Bool, true, false, not, ◌&&◌, ◌||◌, List, [], ◌∷◌, ◌++◌, map, Option, none,
  some, ltb, ◌==◌, if◌then◌else◌, some_of, keep, length,
}
use inbox_angel_worker.Common.Int.{ℤ, pos, negsuc}
use inbox_angel_worker.Text.{
  Text, codes, text_eq, to_lower, trim, is_empty, split_on, cut, before, join, strip_quotes,
  parse_int,
}

pub data RolloutPolicy : Type 0 where
  p_none quarantine reject : RolloutPolicy

pub record RolloutStep : Type 0 where
  pub policy : RolloutPolicy
  pub testing : Bool

abbrev pub policy_eq : RolloutPolicy → RolloutPolicy → Bool
policy_eq p_none p_none = true
policy_eq quarantine quarantine = true
policy_eq reject reject = true
policy_eq _ _ = false

abbrev pub bool_eq : Bool → Bool → Bool
bool_eq true b = b
bool_eq false b = not b

abbrev pub step : RolloutPolicy → Bool → RolloutStep
step p t = record { policy = p; testing = t }

abbrev pub rollout_sequence : List RolloutStep
rollout_sequence =
    step p_none false
    ∷ step quarantine true
    ∷ step quarantine false
    ∷ step reject true
    ∷ step reject false
    ∷ []

abbrev pub pass_rate_threshold : ℕ
pass_rate_threshold = 90

abbrev pub policy_text : RolloutPolicy → Text
policy_text p_none = codes "none"
policy_text quarantine = codes "quarantine"
policy_text reject = codes "reject"

-- `STRENGTH`.
abbrev pub rank : RolloutPolicy → ℕ
rank p_none = 0
rank quarantine = 1
rank reject = 2

abbrev pub lower : RolloutPolicy → RolloutPolicy
lower reject = quarantine
lower _ = p_none

unfoldable pub policy_named : Text → Option RolloutPolicy
policy_named v =
    if text_eq v (codes "none")
    then some p_none
    else if text_eq v (codes "quarantine")
    then some quarantine
    else if text_eq v (codes "reject")
    then some reject
    else none

unfoldable pub as_policy : Option Text → Option RolloutPolicy
unfolding policy_named text_eq to_lower trim
as_policy none = none
as_policy (some p) = policy_named (to_lower (trim p))

-- The `Map` of tags, in the order of insertion.
abbrev pub Tags : Type 0
Tags = List (Text × Text)

-- `tags.get(k)`.
unfoldable pub get_tag : Text → Tags → Option Text
get_tag k [] = none
get_tag k ((j, v) ∷ m) = if text_eq j k then some v else get_tag k m

abbrev pub has_tag : Text → Tags → Bool
has_tag k m = elim (get_tag k m) [ none ↦ false | some _ ↦ true ]

-- One round of the loop of `parseDmarcTags`: `if (k && !tags.has(k)) tags.set(k, v)`.
unfoldable pub set_new : Text → Text → Tags → Tags
unfolding get_tag text_eq
set_new k v m = if not (is_empty k) && not (has_tag k m) then m ++ (k, v) ∷ [] else m

unfoldable pub read_part : Text → Tags → Tags
unfolding set_new cut to_lower trim
read_part part m = elim (cut b'=' part) [
  | none ↦ m
  | some (k, v) ↦ set_new (to_lower (trim k)) (trim v) m
]

unfoldable pub read_parts : Tags → List Text → Tags
unfolding read_part
read_parts m [] = m
read_parts m (part ∷ parts) = read_parts (read_part part m) parts

unfoldable pub parse_dmarc_tags : Text → Tags
unfolding read_parts split_on strip_quotes
parse_dmarc_tags record' = read_parts [] (split_on b';' (strip_quotes record'))

-- `pct != null && pct > 0 && pct < 100`.
abbrev pub is_partial : Option ℤ → Bool
is_partial (some (pos n)) = ltb 0 n && ltb n 100
is_partial _ = false

-- `pct === 0`.
abbrev pub is_zero : Option ℤ → Bool
is_zero (some (pos n)) = n == 0
is_zero _ = false

-- `ROLLOUT_SEQUENCE.findIndex(...)` from index `i`.
unfoldable pub find_step : RolloutPolicy → Bool → ℕ → List RolloutStep → Option ℕ
find_step p t i [] = none
find_step p t i (s ∷ ss) =
    if policy_eq s.policy p && bool_eq s.testing t then some i else find_step p t (i + 1) ss

unfoldable pub index_of_policy : RolloutPolicy → Option ℤ → Bool → Option ℕ
unfolding find_step
index_of_policy p_none pct testing = some 0
index_of_policy p pct testing =
    find_step p (is_zero pct || testing && not (is_partial pct)) 0 rollout_sequence

unfoldable pub step_index_for : Option Text → Option ℤ → Bool → Option ℕ
unfolding index_of_policy as_policy
step_index_for none pct testing = some 0
step_index_for (some policy) pct testing = elim (as_policy (some policy)) [
  | none ↦ none
  | some p ↦ index_of_policy p pct testing
]

-- `tags.has('pct') ? parseInt(tags.get('pct')!, 10) : null`, with NaN read as null.
unfoldable pub pct_of : Tags → Option ℤ
unfolding get_tag text_eq parse_int
pct_of tags = elim (get_tag (codes "pct") tags) [ none ↦ none | some v ↦ parse_int v ]

unfoldable pub is_testing_tag : Tags → Bool
unfolding get_tag text_eq to_lower
is_testing_tag tags = elim (get_tag (codes "t") tags) [
  | none ↦ false
  | some v ↦ text_eq (to_lower v) (codes "y")
]

unfoldable pub step_index_for_record : Text → Option ℕ
step_index_for_record record' =
    let tags = parse_dmarc_tags record' in
    step_index_for (get_tag (codes "p") tags) (pct_of tags) (is_testing_tag tags)

unfoldable pub to_stored : RolloutStep → Text × ℕ
to_stored s = (policy_text s.policy, if s.testing then 0 else 100)

stored_index : Text → Option ℤ → Option ℕ
unfolding step_index_for
stored_index policy pct =
    if is_zero pct
    then step_index_for (some policy) none true
    else step_index_for (some policy) pct false

unfoldable pub step_index_from_stored : Option Text → Option ℤ → Option ℕ
unfolding stored_index
step_index_from_stored none pct = none
step_index_from_stored (some policy) none = none
step_index_from_stored (some policy) (some pct) =
    if is_empty policy then none else stored_index policy (some pct)

-- `ROLLOUT_SEQUENCE[i]`.
abbrev pub nth_step : ℕ → List RolloutStep → Option RolloutStep
nth_step i [] = none
nth_step zero (s ∷ ss) = some s
nth_step (suc i) (s ∷ ss) = nth_step i ss

unfoldable pub get_next_step : Option Text → Option ℤ → Bool → Option RolloutStep
unfolding step_index_for
get_next_step policy pct testing = elim (step_index_for policy pct testing) [
  | none ↦ none
  | some i ↦ if i == 4 then none else nth_step (suc i) rollout_sequence
]

unfoldable pub describe_step : RolloutStep → Text
describe_step s = codes "p=" ++ (policy_text s.policy ++ (if s.testing then codes "; t=y" else []))

pub record Policies : Type 0 where
  pub p : RolloutPolicy
  pub sp : RolloutPolicy
  pub np : RolloutPolicy

unfoldable pub effective_policies : Tags → Policies
effective_policies tags =
    let p' = get_or (as_policy (get_tag (codes "p") tags)) p_none in
    let sp' = get_or (as_policy (get_tag (codes "sp") tags)) p' in
    let np' = get_or (as_policy (get_tag (codes "np") tags)) sp' in
    record { p = p'; sp = sp'; np = np' }

-- Some surface is published above the floor that testing leaves.
abbrev pub above_floor : Policies → ℕ → Bool
above_floor eff floor = ltb floor (rank eff.p) || ltb floor (rank eff.sp) || ltb floor (rank eff.np)

unfoldable pub testing_would_weaken : Text → RolloutStep → Bool
testing_would_weaken existing s =
    if s.testing
    then above_floor (effective_policies (parse_dmarc_tags existing)) (rank (lower s.policy))
    else false

pub data Note : Type 0 where
  removes_pct : ℤ → RolloutPolicy → Note
  skips_testing : RolloutPolicy → Note

pub record NextStepPlan : Type 0 where
  pub next : RolloutStep
  pub drops_partial_pct : Bool
  pub skipped_testing : Bool
  pub note : Option Note

abbrev pub plain : RolloutStep → NextStepPlan
plain s = record { next = s; drops_partial_pct = false; skipped_testing = false; note = none }

abbrev pub is_p_none : RolloutPolicy → Bool
is_p_none p_none = true
is_p_none _ = false

-- The return of `planNextStep` for an index that has a step after it.
plan_after : Text → ℕ → RolloutStep → Option NextStepPlan
plan_after existing idx candidate =
    if testing_would_weaken existing candidate
    then Option.map
        (λ s. record {
          next = s;
          drops_partial_pct = false;
          skipped_testing = true;
          note = some (skips_testing candidate.policy);
        })
        (nth_step (idx + 2) rollout_sequence)
    else some (plain candidate)

unfoldable pub plan_from : Text → Option ℤ → ℕ → RolloutStep → Option NextStepPlan
unfolding plan_after
plan_from existing pct idx current =
    if not (is_p_none current.policy) && is_partial pct
    then some (record {
      next = current;
      drops_partial_pct = true;
      skipped_testing = false;
      note = Option.map (λ n. removes_pct n current.policy) pct;
    })
    else if idx == 4
    then none
    else elim (nth_step (idx + 1) rollout_sequence) [
      | none ↦ none
      | some candidate ↦ plan_after existing idx candidate
    ]

unfoldable pub plan_record : Text → Option NextStepPlan
plan_record existing = elim (step_index_for_record existing) [
  | none ↦ none
  | some idx ↦ elim (nth_step idx rollout_sequence) [
    | none ↦ none
    | some current ↦ plan_from existing (pct_of (parse_dmarc_tags existing)) idx current
  ]
]

unfoldable pub plan_next_step : Option Text → Option NextStepPlan
unfolding plan_record
plan_next_step none = some (plain (step quarantine true))
plan_next_step (some existing) = plan_record existing

unfoldable pub keep_stricter : RolloutPolicy → RolloutPolicy → RolloutPolicy
keep_stricter published target = if ltb (rank target) (rank published) then published else target

-- `${k}=${v}`.
unfoldable pub tag_text : Text × Text → Text
tag_text (k, v) = k ++ b'=' ∷ v

abbrev pub managed : List Text
managed = map codes ("v" ∷ "p" ∷ "sp" ∷ "np" ∷ "t" ∷ "pct" ∷ [])

unfoldable pub part_key : Text → Text
unfolding before trim to_lower
part_key part = to_lower (trim (before b'=' part))

unfoldable pub unmanaged : Text → Bool
unfolding part_key text_eq
unmanaged part = not (some_of (text_eq (part_key part)) managed)

-- The parts of the existing record that are kept as they are.
unfoldable pub other_parts : Text → List Text
unfolding unmanaged trim split_on strip_quotes
other_parts existing =
    keep unmanaged
      (keep (λ part. not (is_empty part)) (map trim (split_on b';' (strip_quotes existing))))

unfoldable pub step_tags : Policies → RolloutStep → List (Text × Text)
unfolding keep_stricter
step_tags eff s =
    (codes "v", codes "DMARC1")
    ∷ (codes "p", policy_text s.policy)
    ∷ (codes "sp", policy_text (keep_stricter eff.sp s.policy))
    ∷ (codes "np", policy_text (keep_stricter eff.np s.policy))
    ∷ (if s.testing then (codes "t", codes "y") ∷ [] else [])

unfoldable pub build_step_record : Text → RolloutStep → Option Text
build_step_record existing s =
    if testing_would_weaken existing s
    then none
    else some (
        join (codes "; ") (
          map tag_text (step_tags (effective_policies (parse_dmarc_tags existing)) s)
          ++ other_parts existing))
