-- ===== src/Durations/Groups.antt =====
-- The texts of durations as groups of digits and a unit, and what a group amounts to.
use k8s_chaos.Prelude.{ℕ, ◌+◌, ◌-◌, ◌*◌, ◌≡◌, List, [], ◌∷◌, ◌++◌, true, false, arith, All}
use k8s_chaos.Durations.Text.{is_digit, is_time_unit}
use k8s_chaos.Durations.Parse.{Match, atoi, nanoseconds}

-- One or more digits and a unit, by their bytes.
pub record Group : Type 0 where
  pub first : ℕ
  pub more : List ℕ
  pub unit : ℕ

abbrev pub AreDigits : List ℕ → Type 0
AreDigits s = All (λ c. is_digit c ≡ true) s

pub record IsGroup (g : Group) : Type 0 where
  pub first_digit : is_digit g.first ≡ true
  pub more_digits : AreDigits g.more
  pub time_unit : is_time_unit g.unit ≡ true

abbrev pub render : List Group → List ℕ
render [] = []
render (g ∷ gs) = g.first ∷ g.more ++ g.unit ∷ render gs

-- The decimal value of digits that stand behind a number.
abbrev pub decimal_from : ℕ → List ℕ → ℕ
decimal_from n [] = n
decimal_from n (c ∷ s) = decimal_from (n * 10 + (c - b'0')) s

abbrev pub amount : Group → ℕ
amount g = decimal_from (g.first - b'0') g.more

abbrev pub match_of : Group → Match
match_of g = (atoi (amount g), g.unit)

pub digit-ne-unit : (c : ℕ) → is_time_unit c ≡ true → is_digit c ≡ false
unfolding is_digit is_time_unit
digit-ne-unit c h = ground arith

-- The nanoseconds of the groups together.
abbrev pub total : List Group → ℕ
total [] = 0
total (g ∷ gs) = amount g * nanoseconds g.unit + total gs
