-- ===== src/Announce/Bot/Lifecycle/Backoff.antt =====
-- The delays between connection attempts.
use native.Mathlib.Nat.{pow-suc}
use orochi.Prelude.{
  ◌∙◌, ℕ, zero, suc, ◌*◌, ◌^◌, ◌≤◌, Bool, true, false, List, [], ◌∷◌, ◌≡◌, refl, ap, arith, min,
  All,
}
use orochi.Announce.Bot.Lifecycle.{delays, reconnect_min, reconnect_max}

delays_in_range :
    (attempts : List Bool) (backoff : ℕ)
    → reconnect_min ≤ backoff
    → backoff ≤ reconnect_max
    → All (λ d. (reconnect_min ≤ d) × (d ≤ reconnect_max)) (delays backoff attempts)
unfolding delays
delays_in_range [] backoff lo hi = tt
delays_in_range (true ∷ rest) backoff lo hi =
    ((omega arith, omega arith), delays_in_range rest _ (omega arith) (omega arith))
delays_in_range (false ∷ rest) backoff lo hi =
    ((lo, hi), delays_in_range rest (min (backoff * 2) reconnect_max) (omega arith) (omega arith))

-- Whatever attempts connect, `run` sleeps at least six and at most 300 seconds after each.
pub delays_bounds :
    (attempts : List Bool)
    → All (λ d. (reconnect_min ≤ d) × (d ≤ reconnect_max)) (delays reconnect_min attempts)
delays_bounds attempts = delays_in_range attempts reconnect_min (omega arith) (omega arith)

-- `n` attempts in a row that fail.
abbrev pub failures : ℕ → List Bool
failures zero = []
failures (suc n) = false ∷ failures n

-- The delays from a number of doublings on, each capped.
abbrev pub doublings : ℕ → ℕ → List ℕ
doublings k zero = []
doublings k (suc n) = min (reconnect_min * 2 ^ k) reconnect_max ∷ doublings (suc k) n

double :
    (k : ℕ)
    → min (min (reconnect_min * 2 ^ k) reconnect_max * 2) reconnect_max
      ≡ min (reconnect_min * 2 ^ suc k) reconnect_max
double k = omega (arith, pow-suc 2 k)

delays-failures_from :
    (n k : ℕ) → delays (min (reconnect_min * 2 ^ k) reconnect_max) (failures n) ≡ doublings k n
unfolding delays
delays-failures_from zero k = refl
delays-failures_from (suc n) k =
    ap (◌∷◌ (min (reconnect_min * 2 ^ k) reconnect_max))
      (ap (λ d. delays d (failures n)) (double k) ∙ delays-failures_from n (suc k))

-- After an attempt that connected, whatever the delay was before, `n` failing attempts in a row
-- double the delay from six seconds on, each time capped at 300.
pub delays-failures : (backoff n : ℕ) → delays backoff (true ∷ failures n) ≡ doublings 0 (suc n)
unfolding delays
delays-failures backoff n = ap (◌∷◌ reconnect_min) (delays-failures_from n 1)
