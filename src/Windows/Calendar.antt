-- ===== src/Windows/Calendar.antt =====
-- What the windows use of Go's `time`, `strings` and `fmt` packages. An instant is a number of
-- nanoseconds since Go's zero time, which `IsZero` tests.
use Prim.Native.Char.{code}
use k8s_chaos.Prelude.{
  ℕ, ℤ, ◌+◌, ◌*◌, String, Bool, true, false, Option, none, some, eqb, if◌then◌else◌,
}

pub data Weekday : Type 0 where
  sunday monday tuesday wednesday thursday friday saturday : Weekday

abbrev pub weekday_eqb : Weekday → Weekday → Bool
weekday_eqb sunday sunday = true
weekday_eqb monday monday = true
weekday_eqb tuesday tuesday = true
weekday_eqb wednesday wednesday = true
weekday_eqb thursday thursday = true
weekday_eqb friday friday = true
weekday_eqb saturday saturday = true
weekday_eqb _ _ = false

-- `day` counts from the day of the instant: `t.In(loc).AddDate(0, 0, day)`.
pub record Calendar (Location : Type 0) : Type 0 where
  pub utc : Location
  pub load_location : String → Option Location
  pub parse_rfc3339 : String → Option ℕ
  pub weekday : Location → (t day : ℕ) → Weekday
  -- `time.Date` of that day, at an hour and a minute.
  pub on_day : Location → (t day : ℕ) → (hour minute : ℤ) → ℕ
  -- The number that `fmt.Sscanf(s, "%d", &n)` leaves in `n`, which is 0 before.
  pub scan_int : String → ℤ
  pub to_lower : String → String

abbrev pub day_length : ℕ
day_length = 86400000000000

abbrev pub clock_length : ℕ → ℕ → ℕ
clock_length h m = (h * 60 + m) * 60000000000

-- The texts before and behind the first colon.
unfoldable pub cut_colon : String → Option (String × String)
cut_colon String.[] = none
cut_colon (String.◌∷◌ c s) =
    let rest = cut_colon s in
    if eqb (code c) b':'
    then some ("", s)
    else elim rest [ none ↦ none | some (h, m) ↦ some (String.◌∷◌ c h, m) ]

has_colon : String → Bool
has_colon String.[] = false
has_colon (String.◌∷◌ c s) = let rest = has_colon s in if eqb (code c) b':' then true else rest

-- `strings.Split(s, ":")`, where it has two parts.
unfoldable pub split_clock : String → Option (String × String)
unfolding cut_colon has_colon
split_clock s = elim (cut_colon s) [
  | none ↦ none
  | some (h, m) ↦ if has_colon m then none else some (h, m)
]
