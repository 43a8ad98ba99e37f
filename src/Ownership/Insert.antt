-- ===== src/Ownership/Insert.antt =====
-- packages/db/src/queries/domains.ts: an inserted row comes after its parent.
use mathlib.Core.Path.{subst}
use mathlib.Core.Option
use inbox_angel_worker.Common.{
  ℕ, suc, ◌<◌, ◌≡◌, refl, List, [], ◌∷◌, ◌++◌, Option, none, some, arith, Bool-cases, inl, inr,
  some_of, All, some_inj, find, ◌&&◌,
}
use inbox_angel_worker.Text.{Text, text_eq, split_on, join, codes}
use inbox_angel_worker.Domains.{
  Domain, Store, VerifiedVia, get_by_name, insert_domain, new_domain, parent_of, is_mine,
}
use inbox_angel_worker.Ownership.Evict.{IsLayered, find-All}

parent_lt :
    (ws : Text) (ls : List Text) (s : Store) (p : ℕ)
    → IsLayered s
    → parent_of ws ls s ≡ some p
    → p < s.next_domain
unfolding get_by_name
parent_lt ws [] s p v e = absurd (cc e)
parent_lt ws (a ∷ []) s p v e = absurd (cc e)
parent_lt ws (a ∷ b ∷ []) s p v e = absurd (cc e)
parent_lt ws (a ∷ b ∷ c ∷ ls) s p v e =
    from (find (λ d. is_mine ws d && text_eq d.name (join (codes ".") (b ∷ c ∷ ls))) s.domains) refl
      e
  where
    from :
        (o : Option Domain)
        → find (λ d. is_mine ws d && text_eq d.name (join (codes ".") (b ∷ c ∷ ls))) s.domains ≡ o
        → Option.map (λ (d : Domain). d.id) o ≡ some p
        → p < s.next_domain
    from none k e = absurd (cc e)
    from (some d) k e =
        subst (λ i. i < s.next_domain) (some_inj e)
          (find-All (λ d. (d.id < s.next_domain) × ((q : ℕ) → d.parent ≡ some q → q < d.id)) _
            s.domains d v k).0.0

layered_end :
    (next : ℕ) (ds : List Domain) (d : Domain)
    → All (λ e. (e.id < next) × ((p : ℕ) → e.parent ≡ some p → p < e.id)) ds
    → d.id ≡ next
    → ((p : ℕ) → d.parent ≡ some p → p < d.id)
    → All (λ e. (e.id < suc next) × ((p : ℕ) → e.parent ≡ some p → p < e.id)) (ds ++ d ∷ [])
layered_end next [] d h same below = ((omega (arith, same), below), tt)
layered_end next (x ∷ xs) d ((lt, up), hs) same below =
    ((omega arith, up), layered_end next xs d hs same below)

-- Inserting a domain keeps the order of the ids that the eviction's walk needs: every id below the next
-- one and above the parent's.
pub insert_domain-IsLayered :
    (ws domain : Text) (via : VerifiedVia) (s t : Store)
    → IsLayered s
    → insert_domain ws domain via s ≡ some t
    → IsLayered t
unfolding insert_domain
insert_domain-IsLayered ws domain via s t v e =
    elim (Bool-cases (some_of (λ d. text_eq d.name domain) s.domains)) [
      | inl k ↦ absurd (cc (rw k at e))
      | inr k ↦ subst IsLayered (some_inj (rw k at e)) (
          layered_end s.next_domain s.domains
            (new_domain s.next_domain ws domain via (parent_of ws (split_on b'.' domain) s)) v refl
            (λ p q. parent_lt ws (split_on b'.' domain) s p v q))
    ]
