-- ===== src/Ownership/Evict.antt =====
-- src/domains/ownership.ts: once a claim is verified, no other workspace holds the name.
use mathlib.Core.Path.{subst}
use inbox_angel_worker.Common.{
  change, ℕ, zero, suc, ◌+◌, ◌≤◌, ◌<◌, ◌≡◌, refl, sym, ◌∙◌, ap, Bool, true, false, not, ◌&&◌, List,
  [], ◌∷◌, ◌++◌, Option, none, some, arith, Bool-cases, inl, inr, if◌then◌else◌, keep, some_of,
  find, ◌==◌, ==_iff, ==_refl, All, some_inj, ◌⊎◌,
}
use inbox_angel_worker.Text.{Text, text_eq, codes}
use inbox_angel_worker.Domains.{
  Domain, Store, Claim, Reason, VerifiedVia, is_mine, is_none, is_proven_other, is_legacy_holder,
  owned_by_other, find_legacy_holder, evicted_row, detach, detach_all, get_by_id, subdomains,
  record_check,
}
use inbox_angel_worker.Ownership.{
  World, is_verified, walk_each, tree_from, walk, evicted_tree, evict_legacy_holder, verify_claim,
  judge_txt, proven_by_parent, proven_by_cloudflare, proven_by_txt,
}

-- A row of another workspace with the name.
abbrev pub is_rival : Text → Text → Domain → Bool
is_rival domain ws d = text_eq d.name domain && not (text_eq d.workspace ws)

-- The name is unique, its row is not detached, and the names of detached rows are others.
pub record IsRegular (print : ℕ → Text) (domain : Text) (s : Store) : Type 0 where
  pub id : ℕ
  pub unique : All (λ d. text_eq d.name domain ≡ true → d.id ≡ id) s.domains
  pub live : All (λ d. text_eq d.name domain ≡ true → is_none d.evicted_at ≡ true) s.domains
  pub fresh : (id : ℕ) → text_eq (codes "evicted-" ++ print id ++ codes ".invalid") domain ≡ false

module _ (print : ℕ → Text) (now : ℕ) (domain ws : Text) where
  -- The rivals have one id, or there is none.
  abbrev RivalsAre : ℕ → Store → Type 0
  RivalsAre id s = All (λ d. is_rival domain ws d ≡ true → d.id ≡ id) s.domains

  abbrev pub NoRival : Store → Type 0
  NoRival s = All (λ d. is_rival domain ws d ≡ false) s.domains

  module _
      (fresh : (id : ℕ)
        → text_eq (codes "evicted-" ++ print id ++ codes ".invalid") domain ≡ false) where
    detach-RivalsAre :
        (id k : ℕ) (ds : List Domain)
        → All (λ d. is_rival domain ws d ≡ true → d.id ≡ id) ds
        → All
            (λ d. is_rival domain ws d ≡ true → d.id ≡ id)
            (change (λ d. d.id == k) (evicted_row print now) ds)
    detach-RivalsAre id k [] h = tt
    detach-RivalsAre id k (d ∷ ds) (h, hs) =
        (ground (arith, h, fresh d.id), detach-RivalsAre id k ds hs)

    detach-NoRival :
        (k : ℕ) (ds : List Domain)
        → All (λ d. is_rival domain ws d ≡ false) ds
        → All
            (λ d. is_rival domain ws d ≡ false)
            (change (λ d. d.id == k) (evicted_row print now) ds)
    detach-NoRival k [] h = tt
    detach-NoRival k (d ∷ ds) (h, hs) = (ground (arith, h, fresh d.id), detach-NoRival k ds hs)

    detach-hits :
        (id : ℕ) (ds : List Domain)
        → All (λ d. is_rival domain ws d ≡ true → d.id ≡ id) ds
        → All
            (λ d. is_rival domain ws d ≡ false)
            (change (λ d. d.id == id) (evicted_row print now) ds)
    detach-hits id [] h = tt
    detach-hits id (d ∷ ds) (h, hs) = (ground (arith, h, fresh d.id), detach-hits id ds hs)

    detach_all-NoRival :
        (ids : List ℕ) (s : Store) → NoRival s → NoRival (detach_all print now ids s)
    unfolding detach
    detach_all-NoRival [] s h = h
    detach_all-NoRival (k ∷ ks) s h =
        detach_all-NoRival ks (detach print now k s) (detach-NoRival k s.domains h)

    detach_all-hits :
        (id : ℕ) (ids : List ℕ) (s : Store)
        → some_of (λ k. k == id) ids ≡ true
        → RivalsAre id s
        → NoRival (detach_all print now ids s)
    unfolding detach
    detach_all-hits id [] s e h = absurd (cc e)
    detach_all-hits id (k ∷ ks) s e h = elim (Bool-cases (k == id)) [
      | inl this ↦
          detach_all-NoRival ks (detach print now k s)
            (rw ((==_iff k id).0 this) (detach-hits id s.domains h))
      | inr other ↦
          detach_all-hits id ks (detach print now k s) (rw other at e)
            (detach-RivalsAre id k s.domains h)
    ]

pub find-All :
    (P : Domain → Type 0) (test : Domain → Bool) (ds : List Domain) (d : Domain)
    → All P ds
    → find test ds ≡ some d
    → P d × (test d ≡ true)
find-All P test [] d h e = absurd (cc e)
find-All P test (x ∷ xs) d (h, hs) e = elim (Bool-cases (test x)) [
  | inl t ↦
      let same : x ≡ d = some_inj (rw t at e) in (subst P same h, subst (λ y. test y ≡ true) same t)
  | inr t ↦ find-All P test xs d hs (rw t at e)
]

no_holder :
    (domain ws : Text) (ds : List Domain)
    → All (λ d. text_eq d.name domain ≡ true → is_none d.evicted_at ≡ true) ds
    → some_of (is_proven_other domain ws) ds ≡ false
    → find (is_legacy_holder domain ws) ds ≡ none
    → All (λ d. is_rival domain ws d ≡ false) ds
no_holder domain ws [] live owned missing = tt
no_holder domain ws (d ∷ ds) (l, live) owned missing =
    (ground (arith, l), no_holder domain ws ds live (ground arith) (ground arith))

some_of-end : (xs : List ℕ) (id k : ℕ) → k ≡ id → some_of (λ j. j == id) (xs ++ k ∷ []) ≡ true
some_of-end [] id k e = rw (e, ==_refl id) refl
some_of-end (x ∷ xs) id k e = ground (arith, some_of-end xs id k e)

-- The holder's own row is in the tree.
tree-holder :
    (ws : Text) (id : ℕ) (s : Store) → some_of (λ k. k == id) (evicted_tree ws id s) ≡ true
unfolding evicted_tree get_by_id
tree-holder ws id s = from (find (λ d. is_mine ws d && d.id == id) s.domains) refl
  where
    all_unit : (ds : List Domain) → All (λ _. Unit {0}) ds
    all_unit [] = tt
    all_unit (_ ∷ ds) = (tt, all_unit ds)

    in_walk :
        (fuel : ℕ) (root : Domain)
        → root.id ≡ id
        → some_of (λ k. k == id) (walk fuel ws s root) ≡ true
    in_walk zero root found = unfold walk in some_of-end [] id root.id found
    in_walk (suc fuel) root found = unfold walk in some_of-end _ id root.id found

    from :
        (o : Option Domain)
        → find (λ d. is_mine ws d && d.id == id) s.domains ≡ o
        → some_of (λ k. k == id) (tree_from ws id s o) ≡ true
    from none e = rw (==_refl id) refl
    from (some root) e = in_walk s.next_domain root (
        ground (
          arith,
          (find-All (λ _. Unit) (λ d. is_mine ws d && d.id == id) s.domains root
              (all_unit s.domains) e).1,
        ))

module _ (print : ℕ → Text) (now : ℕ) (domain ws : Text) (s : Store)
    (v : IsRegular print domain s) where
  evict-NoRival :
      owned_by_other domain ws s ≡ false
      → NoRival print now domain ws (evict_legacy_holder print now ws domain s)
  unfolding owned_by_other find_legacy_holder evict_legacy_holder
  evict-NoRival owned = from (find (is_legacy_holder domain ws) s.domains) refl
    where
      rivals :
          (id : ℕ) (ds : List Domain)
          → id ≡ v.id
          → All (λ d. text_eq d.name domain ≡ true → d.id ≡ v.id) ds
          → All (λ d. is_rival domain ws d ≡ true → d.id ≡ id) ds
      rivals id [] same h = tt
      rivals id (d ∷ ds) same (h, hs) = ((λ e. h (ground arith) ∙ sym same), rivals id ds same hs)

      from :
          (o : Option Domain)
          → find (is_legacy_holder domain ws) s.domains ≡ o
          → NoRival print now domain ws (elim o [
            | none ↦ s
            | some h ↦ detach_all print now (evicted_tree h.workspace h.id s) s
          ])
      from none e = no_holder domain ws s.domains v.live owned e
      from (some h) e =
          let found =
            find-All (λ d. text_eq d.name domain ≡ true → d.id ≡ v.id) (is_legacy_holder domain ws)
              s.domains h v.unique e in
          let its_id : h.id ≡ v.id = found.0 (ground (arith, found.1)) in
          detach_all-hits print now domain ws v.fresh h.id (evicted_tree h.workspace h.id s) s
            (tree-holder h.workspace h.id s) (rivals h.id s.domains its_id v.unique)

-- Once the button has verified a claim, no row of another workspace has the name, so the domain can
-- be inserted: an unproven holder has lost it. The name is taken to be unique among the rows, its row
-- not to be detached, and the names of detached rows to be others.
pub verify_claim-NoRival :
    (w : World) (ws : Text) (c : Claim) (s : Store) (via : VerifiedVia)
    → IsRegular w.print c.domain s
    → (verify_claim w ws c s).0 ≡ is_verified via
    → All (λ d. is_rival c.domain ws d ≡ false) (verify_claim w ws c s).1.domains
unfolding verify_claim
verify_claim-NoRival w ws c s via v h = elim (Bool-cases (owned_by_other c.domain ws s)) [
  | inl e ↦ absurd (cc (rw e at h))
  | inr e ↦ rw e (elim (Bool-cases (proven_by_parent ws c.domain s)) [
    | inl p ↦ rw p (evict-NoRival w.print w.now c.domain ws s v e)
    | inr p ↦ rw p (elim (Bool-cases (proven_by_cloudflare w.cloudflare ws c.domain s)) [
      | inl q ↦ rw q (evict-NoRival w.print w.now c.domain ws s v e)
      | inr q ↦
          rw q (judged (proven_by_txt w.txt c.domain c.token) (rw q at (rw p at (rw e at h))) e)
    ])
  ])
]
  where
    judged :
        (o : Option Reason)
        → (judge_txt w ws c o s).0 ≡ is_verified via
        → owned_by_other c.domain ws s ≡ false
        → NoRival w.print w.now c.domain ws (judge_txt w ws c o s).1
    judged none k e =
        unfold record_check owned_by_other in
        evict-NoRival w.print w.now c.domain ws (record_check ws w.now c.id none s)
          (record { id = v.id; unique = v.unique; live = v.live; fresh = v.fresh }) e
    judged (some r) k e = absurd (cc k)

-- A parent has a smaller id, and ids are below the next one.
abbrev pub IsLayered : Store → Type 0
IsLayered s = All (λ d. (d.id < s.next_domain) × ((p : ℕ) → d.parent ≡ some p → p < d.id)) s.domains

-- The rows below a row have larger ids.
subdomains-lt :
    (ws : Text) (id next : ℕ) (ds : List Domain)
    → All (λ d. (d.id < next) × ((p : ℕ) → d.parent ≡ some p → p < d.id)) ds
    → All
        (λ d. (id < d.id) × (d.id < next))
        (keep (λ d. is_mine ws d && elim d.parent [ none ↦ false | some p ↦ p == id ]) ds)
subdomains-lt ws id next [] h = tt
subdomains-lt ws id next (d ∷ ds) ((lt, below), hs) =
    pick d.parent refl (subdomains-lt ws id next ds hs)
  where
    pick :
        (o : Option ℕ)
        → d.parent ≡ o
        → All
            (λ e. (id < e.id) × (e.id < next))
            (keep (λ e. is_mine ws e && elim e.parent [ none ↦ false | some p ↦ p == id ]) ds)
        → All
            (λ e. (id < e.id) × (e.id < next))
            (if is_mine ws d && elim o [ none ↦ false | some p ↦ p == id ]
              then d
                ∷ keep (λ e. is_mine ws e && elim e.parent [ none ↦ false | some p ↦ p == id ]) ds
              else keep (λ e. is_mine ws e && elim e.parent [ none ↦ false | some p ↦ p == id ]) ds)
    pick none e rest = ground (arith, rest)
    pick (some p) e rest = choose (is_mine ws d) (Bool-cases (p == id))
      where
        choose :
            (b : Bool)
            → (p == id ≡ true) ⊎ (p == id ≡ false)
            → All
                (λ e. (id < e.id) × (e.id < next))
                (if b && p == id
                  then d
                    ∷ keep
                        (λ e. is_mine ws e && elim e.parent [ none ↦ false | some p ↦ p == id ])
                        ds
                  else keep
                      (λ e. is_mine ws e && elim e.parent [ none ↦ false | some p ↦ p == id ])
                      ds)
        choose false _ = rest
        choose true (inr k) = rw k rest
        choose true (inl k) =
            rw k ((subst (λ i. i < d.id) ((==_iff p id).0 k) (below p e), lt), rest)

walk_each-same :
    (f g : Domain → List ℕ) (ds : List Domain)
    → All (λ d. f d ≡ g d) ds
    → walk_each f ds ≡ walk_each g ds
walk_each-same f g [] h = refl
walk_each-same f g (d ∷ ds) (h, hs) = rw (h, walk_each-same f g ds hs) refl

none_between :
    (visit : Domain → List ℕ) (id next : ℕ) (ds : List Domain)
    → next ≤ id + 1
    → All (λ e. (id < e.id) × (e.id < next)) ds
    → walk_each visit ds ≡ []
none_between visit id next [] low h = refl
none_between visit id next (d ∷ ds) low ((above, below), hs) = absurd (omega arith)

-- Enough fuel for a row, and more of it.
walk_more :
    (fuel more : ℕ) (ws : Text) (s : Store) (d : Domain)
    → IsLayered s
    → fuel ≤ more
    → s.next_domain ≤ d.id + fuel + 1
    → walk fuel ws s d ≡ walk more ws s d
unfolding walk
walk_more zero zero ws s d v le low = refl
walk_more zero (suc more) ws s d v le low =
    rw
      (none_between (λ child. walk more ws s child) d.id s.next_domain (subdomains ws d.id s)
        (omega arith) (unfold subdomains in subdomains-lt ws d.id s.next_domain s.domains v))
      refl
walk_more (suc fuel) zero ws s d v le low = absurd (omega arith)
walk_more (suc fuel) (suc more) ws s d v le low =
    ap (λ ids. ids ++ d.id ∷ [])
      (walk_each-same (λ c. walk fuel ws s c) (λ c. walk more ws s c) (subdomains ws d.id s)
        (each (λ c above. walk_more fuel more ws s c v (omega arith) (omega arith))
          (subdomains ws d.id s)
          (unfold subdomains in subdomains-lt ws d.id s.next_domain s.domains v)))
  where
    each :
        ((c : Domain) → d.id < c.id → walk fuel ws s c ≡ walk more ws s c)
        → (cs : List Domain) → All (λ e. (d.id < e.id) × (e.id < s.next_domain)) cs
        → All (λ c. walk fuel ws s c ≡ walk more ws s c) cs
    each same [] h = tt
    each same (c ∷ cs) ((above, _), hs) = (same c above, each same cs hs)

-- A row's id is larger than its parent's and below the next id, so the walk down from any row ends
-- within the fuel that eviction gives it: more fuel finds no further row.
pub walk-enough :
    (ws : Text) (s : Store) (root : Domain) (more : ℕ)
    → All (λ d. (d.id < s.next_domain) × ((p : ℕ) → d.parent ≡ some p → p < d.id)) s.domains
    → s.next_domain ≤ more
    → tree_from ws root.id s (some root) ≡ walk more ws s root
walk-enough ws s root more v enough = walk_more s.next_domain more ws s root v enough (omega arith)
