-- ===== src/Controller/Frame.antt =====
-- What a computation of the controller keeps: predicates on the environment that none of the calls it
-- makes can break.
use k8s_chaos.Prelude.{ℕ, ◌≡◌, refl, String, List, Bool, true, false, if◌then◌else◌}
use k8s_chaos.Go.{Message, GoError, Result, ok, err}
use k8s_chaos.Api.{ChaosExperiment}
use k8s_chaos.Client.{M, Client}
use k8s_chaos.Controller.Machine.{After}

-- From every environment where `P` holds, the computation leads to one where it holds.
abbrev pub Keeps : {W A : Type 0} → (W → Type 0) → M W A → Type 0
Keeps {W} P m = (w : W) → P w → P (m w).1

-- The calls that read, and those that only report, keep `P`.
pub record Quiet {W : Type 0} (c : Client W) (P : W → Type 0) : Type 0 where
  pub now : Keeps P c.now
  pub event : (t r : String) (m : Message) → Keeps P (c.event t r m)
  pub metric : (name : String) (labels : List String) (n : ℕ) → Keeps P (c.metric name labels n)
  pub track : (action : String) (up : Bool) → Keeps P (c.track action up)
  pub get_namespace : (name : String) → Keeps P (c.get_namespace name)
  pub list_pods :
      (namespace : String) (selector : List (String × String))
      → Keeps P (c.list_pods namespace selector)

-- So do the updates that store the experiment a step of the machine later.
pub record Harmless {W : Type 0} (c : Client W) (P : W → Type 0) (exp : ChaosExperiment)
    : Type 0 where
  pub quiet : Quiet c P
  pub update_status : (e : ChaosExperiment) → After exp e → Keeps P (c.update_status e)

module _ {W : Type 0} (P : W → Type 0) where
  pub Result-Keeps :
      {A B : Type 0} (result : Result A) (f : A → M W B) (g : GoError → M W B)
      → ((a : A) → Keeps P (f a))
      → ((e : GoError) → Keeps P (g e))
      → Keeps P (elim result [ ok a ↦ f a | err e ↦ g e ])
  Result-Keeps (ok a) f g h k = h a
  Result-Keeps (err e) f g h k = k e

  pub if-Keeps :
      {B : Type 0} (b : Bool) (m n : M W B)
      → (b ≡ true → Keeps P m)
      → (b ≡ false → Keeps P n)
      → Keeps P (if b then m else n)
  if-Keeps true m n h k = h refl
  if-Keeps false m n h k = k refl

pub if-keeps :
    {W A : Type 0} (P : W → Type 0) (b : Bool) (m n : M W A) (w : W)
    → P (m w).1
    → P (n w).1
    → P ((if b then m else n) w).1
if-keeps P true m n w p q = p
if-keeps P false m n w p q = q

pub if-keeps-true :
    {W A : Type 0} (P : W → Type 0) {b : Bool} (m n : M W A)
    → b ≡ true
    → (w : W) → P (m w).1
    → P ((if b then m else n) w).1
if-keeps-true P m n h w p = rw h p
