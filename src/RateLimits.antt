-- ===== src/RateLimits.antt =====
-- Rate limits of fixed windows, src/auth/rate-limit.ts. Scopes, identifiers and hashes are numbers; the
-- hash is a parameter. A window is longer than no time at all.
pub mod Windows
mod Tests
use openers_performance_dash.Prelude.{
  ℕ, ◌+◌, ◌-◌, ◌*◌, ◌/◌, max, Bool, true, false, ◌&&◌, not, Option, none, some, List, [], ◌∷◌, map,
  ltb, leb, ◌==◌, if◌then◌else◌, or_else,
}
use openers_performance_dash.Prelude.Table.{select_where}

pub record RateLimitInput : Type 0 where
  pub scope : ℕ
  pub identifier : ℕ
  pub limit : ℕ
  pub window_ms : ℕ
  pub now : ℕ

pub record RateLimitRecord : Type 0 where
  pub scope : ℕ
  pub identifier_hash : ℕ
  pub window_started_at : ℕ
  pub request_count : ℕ
  pub expires_at : ℕ

-- The unique key of a record.
pub record Window : Type 0 where
  pub scope : ℕ
  pub identifier_hash : ℕ
  pub started_at : ℕ

abbrev pub window_started_at : RateLimitInput → ℕ
window_started_at i = i.now / i.window_ms * i.window_ms

-- `prepareRateLimit` and `rateLimitKey`.
abbrev pub window_of : (ℕ → ℕ) → RateLimitInput → Window
window_of hash i = record {
  scope = i.scope;
  identifier_hash = hash i.identifier;
  started_at = window_started_at i;
}

abbrev pub is_same_window : Window → Window → Bool
is_same_window v w =
    v.scope == w.scope && v.identifier_hash == w.identifier_hash && v.started_at == w.started_at

abbrev pub window_of_record : RateLimitRecord → Window
window_of_record r = record {
  scope = r.scope;
  identifier_hash = r.identifier_hash;
  started_at = r.window_started_at;
}

abbrev new_record : (ℕ → ℕ) → RateLimitInput → RateLimitRecord
new_record hash i = record {
  scope = i.scope;
  identifier_hash = hash i.identifier;
  window_started_at = window_started_at i;
  request_count = 1;
  expires_at = window_started_at i + i.window_ms * 2;
}

-- `INSERT … ON DUPLICATE KEY UPDATE request_count = request_count + 1`, one row of it.
abbrev pub count_request : (ℕ → ℕ) → RateLimitInput → List RateLimitRecord → List RateLimitRecord
count_request hash i [] = new_record hash i ∷ []
count_request hash i (r ∷ rs) =
    if is_same_window (window_of_record r) (window_of hash i)
    then record r { request_count = r.request_count + 1 } ∷ rs
    else r ∷ count_request hash i rs

abbrev pub count_requests :
    (ℕ → ℕ) → List RateLimitInput → List RateLimitRecord → List RateLimitRecord
count_requests hash [] rs = rs
count_requests hash (i ∷ is) rs = count_requests hash is (count_request hash i rs)

abbrev pub count_of : Window → List RateLimitRecord → Option ℕ
count_of w [] = none
count_of w (r ∷ rs) =
    if is_same_window (window_of_record r) w then some r.request_count else count_of w rs

pub record RateLimitResult : Type 0 where
  pub allowed : Bool
  pub retry_after_seconds : ℕ

abbrev pub remaining_ms : RateLimitInput → ℕ
remaining_ms i = window_started_at i + i.window_ms - i.now

abbrev pub answer_of : (ℕ → ℕ) → List RateLimitRecord → RateLimitInput → RateLimitResult
answer_of hash rs i = record {
  allowed = leb (or_else (count_of (window_of hash i) rs) (i.limit + 1)) i.limit;
  retry_after_seconds = max 1 ((remaining_ms i + 999) / 1000);
}

-- `consumeRateLimits`.
unfoldable pub consume_rate_limits :
    (ℕ → ℕ)
    → List RateLimitInput
    → List RateLimitRecord
    → List RateLimitResult × List RateLimitRecord
consume_rate_limits hash is rs =
    let rs' = count_requests hash is rs in (map (answer_of hash rs') is, rs')

-- `cleanupExpiredRateLimits`.
unfoldable pub cleanup_expired_rate_limits : ℕ → List RateLimitRecord → List RateLimitRecord
cleanup_expired_rate_limits now rs =
    select_where (λ (r : RateLimitRecord). not (ltb r.expires_at now)) rs
