-- ===== src/Durations/Matching.antt =====
-- What the automaton of the duration pattern accepts: rows of groups.
use k8s_chaos.Prelude.{
  ℕ, ◌≡◌, refl, ap, sym, ◌∙◌, List, [], ◌∷◌, ◌++◌, true, false, inl, inr, Bool-cases, arith, All,
}
use k8s_chaos.Durations.Text.{
  is_digit, is_time_unit, DurationMode, at_start, in_digits, at_unit, match_duration,
}
use k8s_chaos.Durations.Groups.{Group, AreDigits, IsGroup, render, digit-ne-unit}

-- One step of the automaton, taken with the tests shut.
match_digit :
    (m : DurationMode) (c : ℕ) (s : List ℕ)
    → is_digit c ≡ true
    → match_duration m (c ∷ s) ≡ match_duration in_digits s
unfolding match_duration
match_digit at_start c s h = ground arith
match_digit in_digits c s h = ground arith
match_digit at_unit c s h = ground arith

match_unit :
    (c : ℕ) (s : List ℕ)
    → is_time_unit c ≡ true
    → match_duration in_digits (c ∷ s) ≡ match_duration at_unit s
unfolding match_duration
match_unit c s h = ground (arith, digit-ne-unit c h)

-- Anything else is refused.
match_other :
    (m : DurationMode) (c : ℕ) (s : List ℕ)
    → is_digit c ≡ false
    → is_time_unit c ≡ false
    → match_duration m (c ∷ s) ≡ false
unfolding match_duration
match_other at_start c s d u = ground arith
match_other in_digits c s d u = ground arith
match_other at_unit c s d u = ground arith

match_not_digit :
    (c : ℕ) (s : List ℕ)
    → is_digit c ≡ false
    → (match_duration at_unit (c ∷ s) ≡ false) × (match_duration at_start (c ∷ s) ≡ false)
unfolding match_duration
match_not_digit c s d = (ground arith, ground arith)

match-digits :
    (ds : List ℕ) (u : ℕ) (rest : List ℕ)
    → AreDigits ds
    → is_time_unit u ≡ true
    → match_duration in_digits (ds ++ u ∷ rest) ≡ match_duration at_unit rest
match-digits [] u rest h e = match_unit u rest e
match-digits (d ∷ ds) u rest (h, hs) e =
    match_digit in_digits d (ds ++ u ∷ rest) h ∙ match-digits ds u rest hs e

match-group :
    (m : DurationMode) (g : Group) (rest : List ℕ)
    → IsGroup g
    → match_duration m (g.first ∷ g.more ++ g.unit ∷ rest) ≡ match_duration at_unit rest
match-group m g rest h =
    match_digit m g.first (g.more ++ g.unit ∷ rest) h.first_digit
    ∙ match-digits g.more g.unit rest h.more_digits h.time_unit

match-render_unit : (gs : List Group) → All IsGroup gs → match_duration at_unit (render gs) ≡ true
match-render_unit [] h = unfold match_duration in refl
match-render_unit (g ∷ gs) (h, hs) = match-group at_unit g (render gs) h ∙ match-render_unit gs hs

pub match-render :
    (g : Group) (gs : List Group)
    → IsGroup g
    → All IsGroup gs
    → match_duration at_start (render (g ∷ gs)) ≡ true
match-render g gs h hs = match-group at_start g (render gs) h ∙ match-render_unit gs hs

-- A text that is accepted behind a digit: the other digits, the unit, and groups.
record Reading (s : List ℕ) : Type 0 where
  digits : List ℕ
  unit : ℕ
  groups : List Group
  digits_ok : AreDigits digits
  unit_ok : is_time_unit unit ≡ true
  groups_ok : All IsGroup groups
  text : s ≡ digits ++ unit ∷ render groups

Groups : List ℕ → Type 0
Groups s = (gs : List Group) × All IsGroup gs × (s ≡ render gs)

Groups-cons : (c : ℕ) (s : List ℕ) → is_digit c ≡ true → Reading s → Groups (c ∷ s)
unfolding Groups
Groups-cons c s h r = (
  record { first = c; more = r.digits; unit = r.unit } ∷ r.groups,
  (record { first_digit = h; more_digits = r.digits_ok; time_unit = r.unit_ok }, r.groups_ok),
  ap (λ t. c ∷ t) r.text,
)

Reading-digit : (c : ℕ) (s : List ℕ) → is_digit c ≡ true → Reading s → Reading (c ∷ s)
Reading-digit c s d r = record {
  digits = c ∷ r.digits;
  unit = r.unit;
  groups = r.groups;
  digits_ok = (d, r.digits_ok);
  unit_ok = r.unit_ok;
  groups_ok = r.groups_ok;
  text = ap (λ t. c ∷ t) r.text;
}

Reading-unit : (c : ℕ) (s : List ℕ) → is_time_unit c ≡ true → Groups s → Reading (c ∷ s)
unfolding Groups
Reading-unit c s u gs = record {
  digits = [];
  unit = c;
  groups = gs.0;
  digits_ok = tt;
  unit_ok = u;
  groups_ok = gs.1;
  text = ap (λ t. c ∷ t) gs.2;
}

not-digits_nil : match_duration in_digits [] ≡ true → ⊥
unfolding match_duration
not-digits_nil h = cc

mutual
  unfolding Groups

  read_digits : (s : List ℕ) → match_duration in_digits s ≡ true → Reading s
  read_digits [] h = absurd (not-digits_nil h)
  read_digits (c ∷ s) h = elim (Bool-cases (is_digit c)) [
    | inl d ↦ Reading-digit c s d (read_digits s (sym (match_digit in_digits c s d) ∙ h))
    | inr d ↦ elim (Bool-cases (is_time_unit c)) [
      | inl u ↦ Reading-unit c s u (read_unit s (sym (match_unit c s u) ∙ h))
      | inr u ↦ cc (match_other in_digits c s d u)
    ]
  ]

  read_unit : (s : List ℕ) → match_duration at_unit s ≡ true → Groups s
  read_unit [] h = ([], tt, refl)
  read_unit (c ∷ s) h = elim (Bool-cases (is_digit c)) [
    | inl d ↦ Groups-cons c s d (read_digits s (sym (match_digit at_unit c s d) ∙ h))
    | inr d ↦ cc ((match_not_digit c s d).0)
  ]

not-start_nil : match_duration at_start [] ≡ true → ⊥
unfolding match_duration
not-start_nil h = cc

Groups-of_start : (s : List ℕ) → match_duration at_start s ≡ true → Groups s
Groups-of_start [] h = absurd (not-start_nil h)
Groups-of_start (c ∷ s) h = elim (Bool-cases (is_digit c)) [
  | inl d ↦ Groups-cons c s d (read_digits s (sym (match_digit at_start c s d) ∙ h))
  | inr d ↦ cc ((match_not_digit c s d).1)
]

pub some_groups :
    (s : List ℕ)
    → match_duration at_start s ≡ true
    → (g : Group) × (gs : List Group) × IsGroup g × All IsGroup gs × (s ≡ render (g ∷ gs))
unfolding Groups
some_groups s h = go (Groups-of_start s h) refl
  where
    go :
        (k : Groups s)
        → s ≡ s
        → (g : Group) × (gs : List Group) × IsGroup g × All IsGroup gs × (s ≡ render (g ∷ gs))
    go ([], _, e) _ = absurd (not-start_nil (ap (match_duration at_start) (sym e) ∙ h))
    go (g ∷ gs, (hg, hs), e) _ = (g, gs, hg, hs, e)
