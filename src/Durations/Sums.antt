-- ===== src/Durations/Sums.antt =====
-- What the parser of the controller finds in a row of groups, and the sum of it.
use k8s_chaos.Prelude.{
  ℕ, ◌+◌, ◌-◌, ◌*◌, ◌^◌, ◌≤◌, ◌<◌, ◌≡◌, refl, ap, ◌∙◌, List, [], ◌∷◌, ◌++◌, true, none, some, arith,
  All, map,
}
use k8s_chaos.Durations.Text.{is_digit, is_time_unit}
use k8s_chaos.Durations.Parse.{atoi, find_all, add_matches, nanoseconds, wrap}
use k8s_chaos.Durations.Groups.{
  Group, AreDigits, IsGroup, render, decimal_from, amount, match_of, total, digit-ne-unit,
}

find_all_digit :
    (n c : ℕ) (s : List ℕ)
    → is_digit c ≡ true
    → find_all (some n) (c ∷ s) ≡ find_all (some (n * 10 + (c - b'0'))) s
unfolding find_all
find_all_digit n c s h = ground (arith, digit-ne-unit c)

find_all_unit :
    (n c : ℕ) (s : List ℕ)
    → is_time_unit c ≡ true
    → find_all (some n) (c ∷ s) ≡ (atoi n, c) ∷ find_all none s
unfolding find_all
find_all_unit n c s h = ground arith

find_all-digits :
    (n : ℕ) (ds : List ℕ) (u : ℕ) (rest : List ℕ)
    → AreDigits ds
    → is_time_unit u ≡ true
    → find_all (some n) (ds ++ u ∷ rest) ≡ (atoi (decimal_from n ds), u) ∷ find_all none rest
find_all-digits n [] u rest h e = find_all_unit n u rest e
find_all-digits n (d ∷ ds) u rest (h, hs) e =
    find_all_digit n d (ds ++ u ∷ rest) h ∙ find_all-digits (n * 10 + (d - b'0')) ds u rest hs e

find_all_first :
    (c : ℕ) (s : List ℕ) → is_digit c ≡ true → find_all none (c ∷ s) ≡ find_all (some (c - b'0')) s
unfolding find_all
find_all_first c s h = ground arith

-- The matches that the parser finds in a rendered text are the groups, one by one.
pub find_all-render :
    (gs : List Group) → All IsGroup gs → find_all none (render gs) ≡ map match_of gs
find_all-render [] h = unfold find_all in refl
find_all-render (g ∷ gs) (h, hs) =
    find_all_first g.first (g.more ++ g.unit ∷ render gs) h.first_digit
    ∙ find_all-digits (g.first - b'0') g.more g.unit (render gs) h.more_digits h.time_unit
    ∙ ap (λ ms. match_of g ∷ ms) (find_all-render gs hs)

nanoseconds_pos : (u : ℕ) → is_time_unit u ≡ true → 1 ≤ nanoseconds u
unfolding is_time_unit
nanoseconds_pos u h = ground arith

le-mul_pos : (a k : ℕ) → 1 ≤ k → a ≤ a * k
le-mul_pos a k h = grind arith

-- A step of the sum that stays below 2 ^ 63 neither saturates nor wraps.
wrap_exact : (acc a k : ℕ) → 1 ≤ k → acc + a * k < 2 ^ 63 → wrap (acc + atoi a * k) ≡ acc + a * k
wrap_exact acc a k h lt = let e : atoi a ≡ a = omega (arith, le-mul_pos a k h) in rw e (omega arith)

regroup : (a b c : ℕ) → a + b + c ≡ a + (b + c)
regroup a b c = omega arith

pub add_matches-exact :
    (acc : ℕ) (gs : List Group)
    → All IsGroup gs
    → acc + total gs < 2 ^ 63
    → add_matches nanoseconds acc (map match_of gs) ≡ acc + total gs
unfolding add_matches
add_matches-exact acc [] h lt = omega arith
add_matches-exact acc (g ∷ gs) (h, hs) lt =
    ap (λ (t : ℕ). add_matches nanoseconds t (map match_of gs))
      (wrap_exact acc (amount g) (nanoseconds g.unit) (nanoseconds_pos g.unit h.time_unit)
        (omega arith))
    ∙ add_matches-exact (acc + amount g * nanoseconds g.unit) gs hs (omega arith)
    ∙ regroup acc (amount g * nanoseconds g.unit) (total gs)
