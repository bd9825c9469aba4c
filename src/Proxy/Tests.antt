-- ===== src/Proxy/Tests.antt =====
-- Runs of the rate limiter, and the theorem about it on one.
use haechi.Prelude.{
  ℕ, ◌+◌, max, min, ◌≡◌, refl, String, inl, inr, [], ◌∷◌, List, lookup, insert, arith, true,
}
use haechi.Proxy.RateLimiter.{Request, granted, asked, allow, swept}
use haechi.Proxy.RateLimiter.Windows.{granted-limit}
use haechi.Proxy.RateLimiter.Again.{run, allow-run}

abbrev asks : String → ℕ → Request
asks key now = record { key = key; limit = 2; now = now }

-- Three more requests of a client in its minute, and one of another client.
abbrev busy : List Request
busy = asks "a" 1000 ∷ asks "b" 2000 ∷ asks "a" 3000 ∷ asks "a" 60999 ∷ []

two_allowed : granted "a" (asks "a" 1000 ∷ busy) [] ≡ 2
unfolding granted allow swept lookup insert
two_allowed = refl

-- A minute later the client may go on.
next_window : granted "a" (asks "a" 1000 ∷ asks "a" 61000 ∷ []) [] ≡ 2
unfolding granted allow swept lookup insert
next_window = refl

granted-limit_example : granted "a" (asks "a" 1000 ∷ busy) [] ≡ min (1 + asked "a" busy) (max 1 2)
granted-limit_example = granted-limit "a" 2 1000 busy [] tt (
  (omega arith, inr refl),
  ((omega arith, inl refl), ((omega arith, inr refl), ((omega arith, inr refl), tt))),
)

allow-run_example : (allow "a" 1 120999 (run (asks "a" 1000 ∷ busy) [])).0 ≡ true
allow-run_example =
    allow-run "a" 1 120999 (asks "a" 1000 ∷ busy)
      (omega arith, (omega arith, (omega arith, (omega arith, (omega arith, tt)))))
