-- ===== src/RateLimits/Tests.antt =====
-- A window with two requests let through, and the theorem at it.
use openers_performance_dash.Prelude.{ℕ, ◌+◌, ◌≡◌, ◌≤◌, refl, false, [], ◌∷◌}
use openers_performance_dash.RateLimits.{
  RateLimitInput, RateLimitRecord, Window, consume_rate_limits,
}
use openers_performance_dash.RateLimits.Windows.{granted, granted-bound}

abbrev request : ℕ → RateLimitInput
request now = record { scope = 1; identifier = 5; limit = 2; window_ms = 60000; now = now }

abbrev counted : RateLimitRecord
counted = record {
  scope = 1;
  identifier_hash = 6;
  window_started_at = 60000;
  request_count = 1;
  expires_at = 180000;
}

abbrev window : Window
window = record { scope = 1; identifier_hash = 6; started_at = 60000 }

abbrev hash : ℕ → ℕ
hash n = n + 1

consume_example :
    (consume_rate_limits hash (request 61000 ∷ request 60500 ∷ []) (counted ∷ [])).0
    ≡ record { allowed = false; retry_after_seconds = 59 }
      ∷ record { allowed = false; retry_after_seconds = 60 }
      ∷ []
unfolding consume_rate_limits
consume_example = refl

granted_example :
    granted hash window 2 ((request 61000 ∷ []) ∷ (request 62000 ∷ []) ∷ []) (counted ∷ []) ≡ 1
unfolding granted consume_rate_limits
granted_example = refl

granted-bound_example :
    granted hash window 2 ((request 61000 ∷ []) ∷ (request 62000 ∷ []) ∷ []) (counted ∷ []) ≤ 1
granted-bound_example =
    granted-bound hash window 2 ((request 61000 ∷ []) ∷ (request 62000 ∷ []) ∷ []) (counted ∷ [])
