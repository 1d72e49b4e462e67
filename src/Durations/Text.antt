-- ===== src/Durations/Text.antt =====
-- api/v1alpha1/validation_helpers.go: the patterns of durations, memory sizes and clock times, as
-- automata over the bytes of a text, and the checks by them.
use Prim.Native.Char.{code}
use k8s_chaos.Prelude.{
  ℕ, String, List, [], ◌∷◌, Bool, true, false, ◌&&◌, ◌||◌, not, Option, none, some, leb, eqb, ◌==◌,
  if◌then◌else◌,
}
use k8s_chaos.Go.{Result, ok, err, errorf, str, end}

-- The code points of a text, which are its bytes where it is ASCII.
abbrev pub codes : String → List ℕ
codes String.[] = []
codes (String.◌∷◌ letter text) = let rest = codes text in code letter ∷ rest

unfoldable pub is_digit : ℕ → Bool
is_digit c = leb b'0' c && leb c b'9'

-- `(s|m|h)`.
unfoldable pub is_time_unit : ℕ → Bool
is_time_unit c = eqb c b's' || eqb c b'm' || eqb c b'h'

-- Where a match of `^([0-9]+(s|m|h))+$` stands: before the first digit, behind a digit, behind a unit.
pub data DurationMode : Type 0 where
  at_start in_digits at_unit : DurationMode

unfoldable pub duration_step : DurationMode → ℕ → Option DurationMode
unfolding is_digit is_time_unit
duration_step at_start c = if is_digit c then some in_digits else none
duration_step in_digits c =
    if is_digit c then some in_digits else if is_time_unit c then some at_unit else none
duration_step at_unit c = if is_digit c then some in_digits else none

abbrev pub accepts : DurationMode → Bool
accepts at_start = false
accepts in_digits = false
accepts at_unit = true

unfoldable pub match_duration : DurationMode → List ℕ → Bool
unfolding duration_step
match_duration m [] = accepts m
match_duration m (c ∷ s) = elim (duration_step m c) [ none ↦ false | some m' ↦ match_duration m' s ]

-- `^[0-9]+[MG]$`, behind the first digit.
match_memory_rest : List ℕ → Bool
unfolding is_digit
match_memory_rest [] = false
match_memory_rest (c ∷ []) = eqb c b'M' || eqb c b'G'
match_memory_rest (c ∷ d ∷ s) = is_digit c && match_memory_rest (d ∷ s)

unfoldable pub match_memory : List ℕ → Bool
unfolding match_memory_rest is_digit
match_memory [] = false
match_memory (c ∷ s) = is_digit c && match_memory_rest s

-- `^([01]\d|2[0-3]):[0-5]\d$`.
unfoldable pub match_clock : List ℕ → Bool
unfolding is_digit
match_clock (a ∷ b ∷ c ∷ d ∷ e ∷ []) =
    (((eqb a b'0' || eqb a b'1') && is_digit b) || (eqb a b'2' && leb b'0' b && leb b b'3'))
    && eqb c b':'
    && (leb b'0' d && leb d b'5')
    && is_digit e
match_clock _ = false

unfoldable pub validate_duration_format : String → Result (Unit {0})
unfolding match_duration
validate_duration_format duration =
    if duration == ""
    then ok tt
    else if not (match_duration at_start (codes duration))
    then err (errorf "duration must match pattern ^([0-9]+(s|m|h))+$, got: %s" (str duration end))
    else ok tt

unfoldable pub validate_memory_size : String → Result (Unit {0})
unfolding match_memory
validate_memory_size memory_size =
    if memory_size == ""
    then ok tt
    else if not (match_memory (codes memory_size))
    then err (errorf "memorySize must match pattern ^[0-9]+[MG]$, got: %s" (str memory_size end))
    else ok tt
