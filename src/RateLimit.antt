-- ===== src/RateLimit.antt =====
-- packages/db/src/queries/global.ts, `rateLimit.hit`, and src/auth/rate-limit.ts: one counter per key
-- over a fixed window. Times are milliseconds.
pub mod Bound
mod Tests
use Prim.Native.Nat.{max}
use inbox_angel_worker.Common.{
  ℕ, suc, ◌+◌, ◌-◌, ◌*◌, ◌/◌, Bool, true, false, List, [], ◌∷◌, Option, none, some, leb,
  if◌then◌else◌,
}
use inbox_angel_worker.Text.{Text, text_eq}

pub record Window : Type 0 where
  pub count : ℕ
  pub last_request : ℕ

-- The table of counters, by key.
abbrev pub Windows : Type 0
Windows = Text → Option Window

abbrev pub put : Text → Window → Windows → Windows
put key row t = λ k. if text_eq k key then some row else t k

-- `now - last >= window`, in numbers that stop at 0.
abbrev pub is_expired : Window → ℕ → ℕ → Bool
is_expired row now window = leb (row.last_request + window) now

abbrev pub next_window : Option Window → ℕ → ℕ → Window
next_window none now window = record { count = 1; last_request = now }
next_window (some row) now window =
    if is_expired row now window
    then record { count = 1; last_request = now }
    else record row { count = suc row.count }

-- The counter after the request, and the table.
unfoldable pub hit : Text → ℕ → ℕ → Windows → Window × Windows
hit key now window t = let row = next_window (t key) now window in (row, put key row t)

pub record Rule : Type 0 where
  pub window : ℕ
  pub max_requests : ℕ

pub record Answer : Type 0 where
  pub allowed : Bool
  pub retry_after : Option ℕ

abbrev pub answer_for : Window → ℕ → ℕ → ℕ → Answer
answer_for row now window limit =
    if leb row.count limit then record { allowed = true; retry_after = none } else record {
      allowed = false;
      retry_after = some (max 1 ((row.last_request + window - now + 999) / 1000));
    }

unfoldable pub consume : Text → Rule → ℕ → Windows → Answer × Windows
consume key rule now t =
    let (row, t') = hit key now (rule.window * 1000) t in
    (answer_for row now (rule.window * 1000) rule.max_requests, t')
