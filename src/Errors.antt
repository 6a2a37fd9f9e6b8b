-- ===== src/Errors.antt =====
-- Go's errors as this program uses them: pkg/groups/grouper.go, and the package
-- github.com/pkg/errors, which is a parameter.
pub mod Kinds
use rbacsync.Prelude.{String, ◌≡◌, refl, ◌⊎◌, inl, inr, Bool, List, Eq, ◌==◌, ◌||◌}

-- The four error variables of pkg/groups/grouper.go.
pub data Sentinel : Type 0 where
  err_not_found err_timeout err_canceled err_unknown : Sentinel

-- An argument of a format: Go formats texts and errors.
pub data Arg (E : Type 0) : Type 0 where
  text : String → Arg E
  error : E → Arg E

-- A call that returns a value and an `error`.
pub data Result (E : Type 0) (A : Type 0) : Type 0 where
  ok : A → Result E A
  err : E → Result E A

-- To split on an answer and keep the equation.
pub Result-cases :
    {E A : Type 0} (r : Result E A) → ((a : A) × (r ≡ ok a)) ⊎ ((e : E) × (r ≡ err e))
Result-cases (ok a) = inl (a, refl)
Result-cases (err e) = inr (e, refl)

-- `errors.Wrap`, `errors.Wrapf` and `errors.Cause` over the type `error`, with `==` of its values.
pub record ErrorPackage : Type 1 where
  pub Error : Type 0
  pub dec : Discrete Error
  pub sentinel : Sentinel → Error
  pub wrap : Error → String → Error
  pub wrapf : Error → String → List (Arg Error) → Error
  pub cause : Error → Error

-- The documentation of pkg/errors: wrapping keeps the cause, and an error that wraps nothing is its
-- own cause. Two calls of `fmt.Errorf` return different pointers.
pub record IsLawful (P : ErrorPackage) : Type 0 where
  pub cause-wrap : (e : P.Error) (message : String) → P.cause (P.wrap e message) ≡ P.cause e
  pub cause-wrapf :
      (e : P.Error) (format : String) (args : List (Arg P.Error))
      → P.cause (P.wrapf e format args) ≡ P.cause e
  pub cause-sentinel : (s : Sentinel) → P.cause (P.sentinel s) ≡ P.sentinel s
  pub sentinel_injective : (s t : Sentinel) → P.sentinel s ≡ P.sentinel t → s ≡ t

abbrev pub error_eq : (P : ErrorPackage) → Eq P.Error
error_eq P = record { dec = P.dec }

module _ (P : ErrorPackage) where
  abbrev is : P.Error → Sentinel → Bool
  is e s = ◌==◌ ⦃e = error_eq P⦄ e (P.sentinel s)

  -- IsNotFound
  unfoldable pub is_not_found : P.Error → Bool
  is_not_found e = is (P.cause e) err_not_found

  -- IsUnknownMemberships
  unfoldable pub is_unknown_memberships : P.Error → Bool
  is_unknown_memberships e =
      let c = P.cause e in is c err_unknown || is c err_timeout || is c err_canceled
