-- ===== src/Float64.antt =====
-- Go's float64 arithmetic on positive values, which the percentage check of the webhook uses: each
-- operation gives the exact result rounded to 53 binary digits, to even where it lies half way.
use k8s_chaos.Prelude.{
  ℕ, zero, suc, ◌+◌, ◌*◌, ◌/◌, ◌%◌, ◌^◌, Bool, ◌&&◌, ◌||◌, ltb, eqb, if◌then◌else◌,
}

-- The value is `num / den`, where `den` is a power of 2.
pub record Float : Type 0 where
  pub num : ℕ
  pub den : ℕ

-- `n / d` to the nearest integer, to the even one half way.
unfoldable pub round_even : ℕ → ℕ → ℕ
round_even n d =
    if ltb d (2 * (n % d)) || (eqb d (2 * (n % d)) && eqb (n / d % 2) 1) then n / d + 1 else n / d

-- Doubles `n` until `n / d` has 53 binary digits; `p` is the power by which it was scaled.
scale_up : ℕ → ℕ → ℕ → ℕ → Float
unfolding round_even
scale_up zero n d p = record { num = round_even n d; den = p }
scale_up (suc fuel) n d p =
    let more = scale_up fuel (2 * n) d (2 * p) in
    if ltb n (d * 2 ^ 52) then more else record { num = round_even n d; den = p }

-- Doubles `d` until `n / d` has no more than 53 binary digits.
scale_down : ℕ → ℕ → ℕ → ℕ → Float
unfolding scale_up
scale_down zero n d p = scale_up 200 n d 1
scale_down (suc fuel) n d p =
    let more = scale_down fuel n (2 * d) (2 * p) in
    if ltb n (d * 2 ^ 53)
    then if eqb p 1 then scale_up 200 n d 1 else record { num = p * round_even n d; den = 1 }
    else more

unfoldable pub round : ℕ → ℕ → Float
unfolding scale_down
round n d = scale_down 100 n d 1

unfoldable pub of_int : ℕ → Float
unfolding round
of_int n = round n 1

unfoldable pub div : Float → Float → Float
unfolding round
div a b = round (a.num * b.den) (a.den * b.num)

unfoldable pub mul : Float → Float → Float
unfolding round
mul a b = round (a.num * b.num) (a.den * b.den)

unfoldable pub greater : Float → Float → Bool
greater a b = ltb (b.num * a.den) (a.num * b.den)

-- `int(x)`.
unfoldable pub truncate : Float → ℕ
truncate a = a.num / a.den
