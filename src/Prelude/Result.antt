-- ===== src/Prelude/Result.antt =====
-- A call that may throw or reject. An error is known by its `name` and `message`, as the code that
-- catches it knows it (libs/rlb-nestjs-amqp/src/common/errors.ts).
use Prim.Native.String.{String}

pub record AppError : Type 0 where
  pub name : String
  pub message : String

pub data Result {ℓ} (A : Type ℓ) : Type ℓ where
  ok : A → Result A
  err : AppError → Result A

infixl 5 ◌>>=◌ ◌>>◌
abbrev pub ◌>>=◌ {ℓ κ} : {A : Type ℓ} {B : Type κ} → Result A → (A → Result B) → Result B
ok a >>= f = f a
err e >>= f = err e

abbrev pub ◌>>◌ {ℓ κ} : {A : Type ℓ} {B : Type κ} → Result A → Result B → Result B
m >> k = m >>= λ _. k

abbrev pub error : String → String → AppError
error name message = record { name = name; message = message }

abbrev pub bad_request : String → AppError
bad_request = error "BadRequestError"

abbrev pub unauthorized : String → AppError
unauthorized = error "UnauthorizedError"

abbrev pub forbidden : String → AppError
forbidden = error "ForbiddenError"

abbrev pub conflict : String → AppError
conflict = error "ConflictError"
