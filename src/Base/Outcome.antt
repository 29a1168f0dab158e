-- ===== src/Base/Outcome.antt =====
-- Errors as values: `HttpError` of core/middlewares/error.middleware.ts, the database errors that
-- the services tell apart by their Prisma code, and what a transaction leaves behind.
use Prim.Native.Nat.{ℕ}
use mathlib.Core.Bool.{Bool, false, true}
use mathlib.Core.Logic.{inl, inr, ◌⊎◌}
use mathlib.Core.Option.{Option, none, some}
use mathlib.Core.Path.{refl, ◌≡◌}

-- `C` is the component's type of message keys. `conflict` is P2034, `duplicate` is P2002, and
-- `refused` any other error of the database client, such as a query with a null key.
pub data Failure (C : Type 0) : Type 0 where
  http : ℕ → C → Failure C
  conflict duplicate refused : Failure C

pub data Result {ℓ} (C : Type 0) (A : Type ℓ) : Type ℓ where
  ok : A → Result C A
  err : Failure C → Result C A

module _ {C : Type 0} where
  -- `if (test) throw new HttpError(status, code)`
  abbrev pub throw_if : Bool → ℕ → C → Result C (Unit {0})
  throw_if true status code = err (http status code)
  throw_if false status code = ok tt

  -- A value that the code takes to be there: an error of the client where it is null.
  abbrev pub required {ℓ} : {A : Type ℓ} → Option A → Failure C → Result C A
  required none failure = err failure
  required (some value) failure = ok value

  -- `await` of a step that may throw, then the rest with its value.
  infixl 5 ◌>>=◌ ◌>>◌
  abbrev pub ◌>>=◌ {ℓ κ} :
      {Value : Type ℓ} {Next : Type κ} → Result C Value → (Value → Result C Next) → Result C Next
  err failure >>= rest = err failure
  ok value >>= rest = rest value

  abbrev pub ◌>>◌ {κ} : {Next : Type κ} → Result C (Unit {0}) → Result C Next → Result C Next
  check >> rest = check >>= λ done. rest

  -- A chain that ends well went through its first step.
  pub >>=-eq-ok {ℓ κ} :
      {Value : Type ℓ} {Next : Type κ} (step : Result C Value) (rest : Value → Result C Next)
      {end : Next}
      → (step >>= rest) ≡ ok end
      → (value : Value) × (step ≡ ok value) × (rest value ≡ ok end)
  >>=-eq-ok (err failure) rest went = cc
  >>=-eq-ok (ok value) rest went = (value, refl, went)

  pub Result-cases {ℓ} :
      {A : Type ℓ} (x : Result C A)
      → ((value : A) × (x ≡ ok value)) ⊎ ((failure : Failure C) × (x ≡ err failure))
  Result-cases (ok value) = inl (value, refl)
  Result-cases (err failure) = inr (failure, refl)
