-- ===== src/Durations/Parse.antt =====
-- internal/controller/chaosexperiment_controller.go: `parseDuration`, `parseDurationToSeconds` and
-- `parseDurationToMs`. An `int` or `time.Duration` is a 64-bit pattern, a number below 2 ^ 64.
use k8s_chaos.Prelude.{
  ℕ, ◌+◌, ◌-◌, ◌*◌, ◌/◌, ◌%◌, ◌^◌, String, List, [], ◌∷◌, Option, none, some, min, eqb, ltb,
  if◌then◌else◌,
}
use k8s_chaos.Go.{Result, ok, err, errorf, end, ◌>>=◌}
use k8s_chaos.Durations.Text.{codes, is_digit, is_time_unit}

abbrev pub wrap : ℕ → ℕ
wrap n = n % 2 ^ 64

abbrev pub second : ℕ
second = 1000000000

abbrev pub minute : ℕ
minute = 60000000000

abbrev pub hour : ℕ
hour = 3600000000000

-- A match of `(\d+)([smh])`: the number and the unit. `strconv.Atoi` gives the greatest `int` where
-- the number is out of range, and the code drops its error.
abbrev pub Match : Type 0
Match = ℕ × ℕ

abbrev pub atoi : ℕ → ℕ
atoi n = min n (2 ^ 63 - 1)

-- `FindAllStringSubmatch`: the leftmost matches one after the other. `run` is the value of the digits
-- that stand directly before, if any.
unfoldable pub find_all : Option ℕ → List ℕ → List Match
unfolding is_digit is_time_unit
find_all run [] = []
find_all none (c ∷ s) = find_all (if is_digit c then some (c - b'0') else none) s
find_all (some n) (c ∷ s) =
    let found = find_all none s in
    let more = find_all (if is_digit c then some (n * 10 + (c - b'0')) else none) s in
    if is_time_unit c then (atoi n, c) ∷ found else more

abbrev pub nanoseconds : ℕ → ℕ
nanoseconds unit =
    if eqb unit b's'
    then second
    else if eqb unit b'm'
    then minute
    else if eqb unit b'h'
    then hour
    else 0

abbrev pub milliseconds : ℕ → ℕ
milliseconds unit =
    if eqb unit b's'
    then 1000
    else if eqb unit b'm'
    then 60000
    else if eqb unit b'h'
    then 3600000
    else 0

-- `for _, match := range matches { total += value * unit }`.
unfoldable pub add_matches : (ℕ → ℕ) → ℕ → List Match → ℕ
add_matches scale total [] = total
add_matches scale total ((value, unit) ∷ ms) =
    add_matches scale (wrap (total + value * scale unit)) ms

unfoldable pub sum_matches : (ℕ → ℕ) → List Match → Result ℕ
unfolding add_matches
sum_matches scale [] = err (errorf "invalid duration format" end)
sum_matches scale (m ∷ ms) = ok (add_matches scale 0 (m ∷ ms))

unfoldable pub parse_duration : String → Result ℕ
unfolding find_all sum_matches
parse_duration duration = sum_matches nanoseconds (find_all none (codes duration))

unfoldable pub parse_duration_to_ms : String → Result ℕ
unfolding find_all sum_matches
parse_duration_to_ms duration = sum_matches milliseconds (find_all none (codes duration))

-- `int(duration.Seconds())`: truncated toward zero, so a negative duration rounds up. `Seconds()` is a
-- float64, exact for a whole number of seconds, as every parsed duration is that does not wrap.
unfoldable pub to_seconds : ℕ → ℕ
to_seconds d = if ltb d (2 ^ 63) then d / second else wrap (2 ^ 64 - (2 ^ 64 - d) / second)

unfoldable pub parse_duration_to_seconds : String → Result ℕ
unfolding parse_duration to_seconds
parse_duration_to_seconds duration = do d ← parse_duration duration; ok (to_seconds d)
