-- ===== src/Durations/Grammar.antt =====
-- What the duration pattern accepts, as a grammar, and what the controller reads in an accepted text.
use k8s_chaos.Prelude.{
  ◌^◌, ◌<◌, ◌≡◌, ◌≢◌, ◌↔◌, ap, ◌∙◌, String, List, ◌∷◌, true, none, arith, All, eq_iff, map,
}
use k8s_chaos.Go.{ok, IsOk, is_ok}
use k8s_chaos.Durations.Text.{codes, at_start, match_duration, validate_duration_format}
use k8s_chaos.Durations.Parse.{find_all, add_matches, sum_matches, nanoseconds, parse_duration}
use k8s_chaos.Durations.Groups.{Group, IsGroup, render, match_of, total}
use k8s_chaos.Durations.Matching.{match-render, some_groups}
use k8s_chaos.Durations.Sums.{find_all-render, add_matches-exact}

validated_matches :
    (d : String)
    → d ≢ ""
    → validate_duration_format d ≡ ok tt
    → match_duration at_start (codes d) ≡ true
unfolding validate_duration_format
validated_matches d n h = ground (arith, eq_iff d "")

matches_validated :
    (d : String) → match_duration at_start (codes d) ≡ true → validate_duration_format d ≡ ok tt
unfolding validate_duration_format
matches_validated d h = ground arith

-- A non-empty text passes the check exactly when it is a row of one or more groups, each of one or
-- more digits and a unit.
pub validate_duration_format_iff :
    (d : String)
    → d ≢ ""
    → (validate_duration_format d ≡ ok tt)
      ↔ ((g : Group) × (gs : List Group) × IsGroup g × All IsGroup gs × (codes d ≡ render (g ∷ gs)))
validate_duration_format_iff d n = (to, from)
  where
    to :
        validate_duration_format d ≡ ok tt
        → (g : Group) × (gs : List Group) × IsGroup g × All IsGroup gs × (codes d ≡ render (g ∷ gs))
    to h = some_groups (codes d) (validated_matches d n h)

    from :
        (g : Group) × (gs : List Group) × IsGroup g × All IsGroup gs × (codes d ≡ render (g ∷ gs))
        → validate_duration_format d ≡ ok tt
    from (g, gs, hg, hs, e) =
        matches_validated d (ap (match_duration at_start) e ∙ match-render g gs hg hs)

parse_duration_groups :
    (d : String) (g : Group) (gs : List Group)
    → IsGroup g
    → All IsGroup gs
    → codes d ≡ render (g ∷ gs)
    → parse_duration d ≡ ok (add_matches nanoseconds 0 (map match_of (g ∷ gs)))
unfolding parse_duration
parse_duration_groups d g gs hg hs e =
    ap (λ s. sum_matches nanoseconds (find_all none s)) e
    ∙ ap (sum_matches nanoseconds) (find_all-render (g ∷ gs) (hg, hs))

-- A non-empty text that passes the check is parsed without an error; where the groups add up to less
-- than 2 ^ 63 nanoseconds the result is their exact sum.
pub parse_duration-validated :
    (d : String)
    → d ≢ ""
    → validate_duration_format d ≡ ok tt
    → (gs : List Group) × All IsGroup gs
      × (codes d ≡ render gs)
      × IsOk (parse_duration d)
      × (total gs < 2 ^ 63 → parse_duration d ≡ ok (total gs))
parse_duration-validated d n h =
    let (g, gs, hg, hs, e) = some_groups (codes d) (validated_matches d n h) in
    let r = parse_duration_groups d g gs hg hs e in
    (
      g ∷ gs,
      (hg, hs),
      e,
      rw r (is_ok _),
      λ lt. r ∙ ap ok (add_matches-exact 0 (g ∷ gs) (hg, hs) (omega arith) ∙ omega arith),
    )
