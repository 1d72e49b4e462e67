-- ===== src/Go.antt =====
-- What the program uses of Go's errors and of the Kubernetes API machinery's errors: formatted texts
-- are kept as their format and arguments, and an API error as its reason and text.
use k8s_chaos.Prelude.{
  ℕ, ℤ, String, Bool, true, false, List, Option, none, some, ◌≡◌, refl, ◌⊎◌, inl, inr,
}

mutual
  -- A string: written by the code, or the result of `fmt.Sprintf`.
  pub data Message : Type 0 where
    lit : String → Message
    fmt : String → Args → Message

  -- The arguments of a format, in order.
  pub data Args : Type 0 where
    end : Args
    str : String → Args → Args
    int : ℤ → Args → Args
    num : ℕ → Args → Args
    -- A float64, as a fraction.
    float : ℕ → ℕ → Args → Args
    msg : Message → Args → Args
    strs : List String → Args → Args

-- The reason of an API error, `metav1.StatusReason`, as far as the program tests it.
pub data Reason : Type 0 where
  forbidden unauthorized timeout invalid bad_request not_found conflict other_reason : Reason

-- `errorf` is `fmt.Errorf` without `%w`, `wrapf` is `fmt.Errorf` whose last argument is under `%w`, and
-- `wrapf_first` the same for its first argument.
pub data GoError : Type 0 where
  api : Reason → String → GoError
  errorf : String → Args → GoError
  wrapf : String → Args → GoError → GoError
  wrapf_first : String → GoError → Args → GoError

-- The method `Error()` of these errors.
abbrev pub append_msg : Args → Message → Args
append_msg end m = msg m end
append_msg (str s a) m = str s (append_msg a m)
append_msg (int n a) m = int n (append_msg a m)
append_msg (num n a) m = num n (append_msg a m)
append_msg (float n d a) m = float n d (append_msg a m)
append_msg (msg k a) m = msg k (append_msg a m)
append_msg (strs l a) m = strs l (append_msg a m)

abbrev pub error_text : GoError → Message
error_text (api r s) = lit s
error_text (errorf f a) = fmt f a
error_text (wrapf f a e) = fmt f (append_msg a (error_text e))
error_text (wrapf_first f e a) = fmt f (msg (error_text e) a)

-- The API error at the end of a chain of wraps, which `errors.As` finds.
abbrev pub reason : GoError → Option Reason
reason (api r s) = some r
reason (errorf f a) = none
reason (wrapf f a e) = reason e
reason (wrapf_first f e a) = reason e

-- `apierrors.IsNotFound` and its like.
abbrev pub is_not_found : GoError → Bool
is_not_found e = elim (reason e) [ some not_found ↦ true | _ ↦ false ]

abbrev pub is_forbidden : GoError → Bool
is_forbidden e = elim (reason e) [ some forbidden ↦ true | _ ↦ false ]

abbrev pub is_unauthorized : GoError → Bool
is_unauthorized e = elim (reason e) [ some unauthorized ↦ true | _ ↦ false ]

abbrev pub is_timeout : GoError → Bool
is_timeout e = elim (reason e) [ some timeout ↦ true | _ ↦ false ]

abbrev pub is_invalid : GoError → Bool
is_invalid e = elim (reason e) [ some invalid ↦ true | _ ↦ false ]

abbrev pub is_bad_request : GoError → Bool
is_bad_request e = elim (reason e) [ some bad_request ↦ true | _ ↦ false ]

-- The result of a fallible Go function.
pub data Result {ℓ} (V : Type ℓ) : Type ℓ where
  ok : V → Result V
  err : GoError → Result V

infixl 5 ◌>>◌ ◌>>=◌
-- A failure ends the function that the two stand in; otherwise the second goes on, and is given the
-- value of the first by `>>=`.
abbrev pub ◌>>◌ {κ} : {B : Type κ} → Result (Unit {0}) → Result B → Result B
err failure >> next = err failure
ok _ >> next = next

abbrev pub ◌>>=◌ {ℓ κ} : {B : Type κ} {A : Type ℓ} → Result A → (A → Result B) → Result B
err failure >>= next = err failure
ok value >>= next = next value

-- `if failed { return fmt.Errorf(...) }`.
abbrev pub refuse_if : Bool → GoError → Result (Unit {0})
refuse_if true e = err e
refuse_if false e = ok tt

pub data IsOk {ℓ} {A : Type ℓ} : Result A → Type ℓ where
  is_ok : (a : A) → IsOk (ok a)

pub Result-cases {ℓ} :
    {V : Type ℓ} (result : Result V)
    → ((v : V) × (result ≡ ok v)) ⊎ ((failure : GoError) × (result ≡ err failure))
Result-cases (err failure) = inr (failure, refl)
Result-cases (ok v) = inl (v, refl)
