-- ===== src/NavGraph/Distance.antt =====
-- The arithmetic of `Graph::get_distance` (Server_AI/Graph.cxx). A difference is squared, so its absolute
-- value serves; up to INT_MAX the doubles are exact, and the square root cut to an int is the integer
-- square root.
use inferno_game_server.Base.{ℕ, zero, suc, ◌+◌, ◌-◌, ◌*◌, ◌≤◌, ◌<◌, ◌≡◌, arith, leb, if◌then◌else◌}
use inferno_game_server.Base.Int.{ℤ, pos_part, neg_part}

-- |a - b|
unfoldable pub gap : ℤ → ℤ → ℕ
gap a b = let p = pos_part a + neg_part b in let q = pos_part b + neg_part a in p - q + (q - p)

pub gap_comm : (a b : ℤ) → gap a b ≡ gap b a
unfolding gap
gap_comm a b = omega arith

-- The largest number up to `k` whose square is at most `n`.
sqrt_below : ℕ → ℕ → ℕ
sqrt_below zero n = 0
sqrt_below (suc k) n = let rest = sqrt_below k n in if leb (suc k * suc k) n then suc k else rest

unfoldable pub isqrt : ℕ → ℕ
unfolding sqrt_below
isqrt n = sqrt_below n n

sqrt_below-bounds :
    (k n : ℕ)
    → n < suc k * suc k
    → (sqrt_below k n * sqrt_below k n ≤ n) × (n < suc (sqrt_below k n) * suc (sqrt_below k n))
unfolding sqrt_below
sqrt_below-bounds zero n h = (omega arith, h)
sqrt_below-bounds (suc k) n h = ground (arith, sqrt_below-bounds k n)

square_grows : (n : ℕ) → n < suc n * suc n
square_grows n = grind arith

pub isqrt_bounds : (n : ℕ) → (isqrt n * isqrt n ≤ n) × (n < suc (isqrt n) * suc (isqrt n))
unfolding isqrt
isqrt_bounds n = sqrt_below-bounds n n (square_grows n)

-- Below 2 ^ 32 a root is below 2 ^ 16.
pub isqrt-lt : (n : ℕ) → n ≤ 2147483647 → isqrt n < 65536
isqrt-lt n h = let b = isqrt_bounds n in grind arith
