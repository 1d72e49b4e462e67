-- ===== src/Controller/Conditions/Laws.antt =====
-- internal/controller/chaosexperiment_controller.go: the condition BlockedByTimeWindow is set and cleared.
use k8s_chaos.Prelude.{
  ◌≤◌, ◌≡◌, refl, sym, ap, ◌∙◌, All, List, [], ◌∷◌, ◌++◌, true, false, not, select, length, arith,
  inl, inr, Bool-cases,
}
use mathlib.Core.List.{append-nil}
use k8s_chaos.Api.{Condition}
use k8s_chaos.Controller.Conditions.{is_blocked, put_condition, drop_condition}

put_condition-after :
    (d : Condition) (front rest : List Condition)
    → All (λ x. is_blocked x ≡ false) front
    → put_condition d (front ++ rest) ≡ front ++ put_condition d rest
unfolding put_condition
put_condition-after d [] rest h = refl
put_condition-after d (x ∷ xs) rest (h, hs) =
    rw h (ap (λ l. x ∷ l) (put_condition-after d xs rest hs))

drop_condition-after :
    (front rest : List Condition)
    → All (λ x. is_blocked x ≡ false) front
    → drop_condition (front ++ rest) ≡ front ++ drop_condition rest
unfolding drop_condition
drop_condition-after [] rest h = refl
drop_condition-after (x ∷ xs) rest (h, hs) =
    rw h (ap (λ l. x ∷ l) (drop_condition-after xs rest hs))

put_condition-first :
    (d b : Condition) (rest : List Condition)
    → is_blocked b ≡ true
    → put_condition d (b ∷ rest) ≡ d ∷ rest
unfolding put_condition
put_condition-first d b rest h = rw h refl

drop_condition-first :
    (b : Condition) (rest : List Condition) → is_blocked b ≡ true → drop_condition (b ∷ rest) ≡ rest
unfolding drop_condition
drop_condition-first b rest h = rw h refl

-- Behind conditions that do not block: setting a condition replaces the first one that blocks and leaves
-- all that follow it, or appends the new one where none blocks; clearing it again takes out just this
-- one, and clearing changes nothing where none blocks.
pub put_condition-drop_condition :
    (d b : Condition) (front rest : List Condition)
    → is_blocked d ≡ true
    → is_blocked b ≡ true
    → All (λ x. is_blocked x ≡ false) front
    → (put_condition d (front ++ b ∷ rest) ≡ front ++ d ∷ rest)
      × (drop_condition (front ++ d ∷ rest) ≡ front ++ rest)
      × (put_condition d front ≡ front ++ d ∷ [])
      × (drop_condition (put_condition d front) ≡ front)
      × (drop_condition front ≡ front)
unfolding put_condition drop_condition
put_condition-drop_condition d b front rest hd hb h =
    let added : put_condition d front ≡ front ++ d ∷ [] =
      ap (put_condition d) (sym (append-nil front)) ∙ put_condition-after d front [] h in
    let cleared : drop_condition (front ++ d ∷ []) ≡ front =
      drop_condition-after front (d ∷ []) h
      ∙ ap (λ l. front ++ l) (drop_condition-first d [] hd)
      ∙ append-nil front in
    (
      put_condition-after d front (b ∷ rest) h
          ∙ ap (λ l. front ++ l) (put_condition-first d b rest hb),
      drop_condition-after front (d ∷ rest) h
          ∙ ap (λ l. front ++ l) (drop_condition-first d rest hd),
      added,
      ap drop_condition added ∙ cleared,
      ap drop_condition (sym (append-nil front))
          ∙ drop_condition-after front [] h
          ∙ append-nil front,
    )

-- Setting a condition that blocks leaves one that does, if there was one at most, and every other condition in
-- its place.
pub put_condition-single :
    (d : Condition) (ds : List Condition)
    → is_blocked d ≡ true
    → length (select is_blocked ds) ≤ 1
    → (length (select is_blocked (put_condition d ds)) ≡ 1)
      × (select (λ x. not (is_blocked x)) (put_condition d ds)
          ≡ select (λ x. not (is_blocked x)) ds)
unfolding put_condition
put_condition-single d [] b h = rw b (refl, refl)
put_condition-single d (x ∷ xs) b h = elim (Bool-cases (is_blocked x)) [
  | inl e ↦ ground (arith, e, b, h)
  | inr e ↦ ground (arith, e, b, h, put_condition-single d xs b)
]
