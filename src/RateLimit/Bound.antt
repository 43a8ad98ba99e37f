-- ===== src/RateLimit/Bound.antt =====
-- src/auth/rate-limit.ts: no window lets more requests through than the rule says.
use inbox_angel_worker.Common.{
  ℕ, suc, ◌+◌, ◌-◌, ◌*◌, ◌≤◌, ◌<◌, ◌≡◌, refl, ◌∙◌, ap, List, [], ◌∷◌, some, if◌then◌else◌, All,
  arith,
}
use inbox_angel_worker.Text.{Text}
use inbox_angel_worker.Text.Equal.{text_eq_refl}
use inbox_angel_worker.RateLimit.{Windows, next_window, hit, Rule, consume}

-- How many of the requests at the given times are allowed, one after another.
unfoldable pub allowed_count : Text → Rule → List ℕ → Windows → ℕ
allowed_count key rule [] t = 0
allowed_count key rule (now ∷ ts) t =
    let (a, t') = consume key rule now t in
    let rest = allowed_count key rule ts t' in if a.allowed then suc rest else rest

-- A window that is open at a time, seen from its counter.
abbrev Open : Text → Windows → ℕ → ℕ → Type 0
Open key t n start = t key ≡ some (record { count = n; last_request = start })

hit_row :
    (key : Text) (now window : ℕ) (t : Windows)
    → (hit key now window t).1 key ≡ some (next_window (t key) now window)
unfolding hit
hit_row key now window t = rw (text_eq_refl key) refl

allowed_count-Open :
    (key : Text) (rule : Rule) (start n : ℕ) (ts : List ℕ) (t : Windows)
    → Open key t n start
    → All (λ now. now < start + rule.window * 1000) ts
    → allowed_count key rule ts t ≤ rule.max_requests - n
unfolding allowed_count consume
allowed_count-Open key rule start n [] t o h = omega arith
allowed_count-Open key rule start n (now ∷ ts) t o (lt, h) =
    let row' : next_window (t key) now (rule.window * 1000)
        ≡ record { count = suc n; last_request = start } =
      rw o (ground arith) in
    let rest =
      allowed_count-Open key rule start (suc n) ts (hit key now (rule.window * 1000) t).1
        (hit_row key now (rule.window * 1000) t ∙ ap some row') h in
    let first : (hit key now (rule.window * 1000) t).0
        ≡ record { count = suc n; last_request = start } =
      unfold hit in row' in
    rw first (ground (arith, rest))

-- From a request that opens a window on, at most as many requests as the rule says are allowed
-- before the window ends, however many are made.
pub allowed_count-le :
    (key : Text) (rule : Rule) (start : ℕ) (ts : List ℕ) (t : Windows)
    → next_window (t key) start (rule.window * 1000) ≡ record { count = 1; last_request = start }
    → All (λ now. now < start + rule.window * 1000) ts
    → allowed_count key rule (start ∷ ts) t ≤ rule.max_requests
unfolding allowed_count consume
allowed_count-le key rule start ts t opens h =
    let rest =
      allowed_count-Open key rule start 1 ts (hit key start (rule.window * 1000) t).1
        (hit_row key start (rule.window * 1000) t ∙ ap some opens) h in
    let first : (hit key start (rule.window * 1000) t).0
        ≡ record { count = 1; last_request = start } =
      unfold hit in opens in
    rw first (ground (arith, rest))
