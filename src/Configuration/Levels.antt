-- ===== src/Configuration/Levels.antt =====
-- The log levels that `Configuration::log` lets through.
use undervest.Prelude.{ℕ, ◌≡◌, ◌≤◌, arith}
use undervest.Configuration.{Configuration, clamp}

-- If the most severe level allowed is not behind the least severe one, every level ends between the
-- two, a level between them stays, the order of levels stays, and clamping twice is clamping once.
pub clamp_bounds :
    (c : Configuration) (level other : ℕ)
    → c.maxloglevel ≤ c.minloglevel
    → (c.maxloglevel ≤ clamp c level)
      × (clamp c level ≤ c.minloglevel)
      × (c.maxloglevel ≤ level → level ≤ c.minloglevel → clamp c level ≡ level)
      × (level ≤ other → clamp c level ≤ clamp c other)
      × (clamp c (clamp c level) ≡ clamp c level)
unfolding clamp
clamp_bounds c level other h =
    (ground arith, ground arith, (λ p q. ground arith), (λ p. ground arith), ground arith)
