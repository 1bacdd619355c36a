-- ===== src/Base/Errors.antt =====
-- Go's errors and results. An error is the text of `errors.New`, that text around a cause
-- (`fmt.Errorf` with `%w`), or one of the values that the code compares with `errors.Is`.
use Prim.Native.Nat.{ℕ}
use Prim.Native.String.{String}
use mathlib.Core.Path.{◌≡◌, refl}
use mathlib.Core.Logic.{◌⊎◌, inl, inr}
use mathlib.Core.Bool.{Bool, true, false}

pub data Error : Type 0 where
  -- errors.New
  new : String → Error
  -- fmt.Errorf("...: %w", cause)
  wrap : String → Error → Error
  -- io.EOF, context.Canceled, context.DeadlineExceeded
  eof canceled deadline_exceeded : Error
  -- protowire.ParseError
  parse_error : Error
  -- an error of code outside the repository
  external : ℕ → Error
  -- not an error of the program: a loop on fuel that ran out
  out_of_fuel : Error

pub data Result {ℓ} (A : Type ℓ) : Type ℓ where
  err : Error → Result A
  ok : A → Result A

-- A function whose only result is its error.
abbrev pub Outcome : Type 0
Outcome = Result (Unit {0})

infixl 5 ◌>>=◌
abbrev pub ◌>>=◌ {ℓ κ} : {B : Type κ} {A : Type ℓ} → Result A → (A → Result B) → Result B
err e >>= next = err e
ok a >>= next = next a

infixl 5 ◌>>◌
abbrev pub ◌>>◌ {ℓ} : {A : Type ℓ} → Outcome → Result A → Result A
check >> rest = check >>= λ _. rest

-- `if cond { return err }`
abbrev pub refuse_if : Bool → Error → Outcome
refuse_if true e = err e
refuse_if false e = ok tt

-- `if err := ...; err != nil { return wrapped }`
abbrev pub map_err {ℓ} : {A : Type ℓ} → (Error → Error) → Result A → Result A
map_err f (ok a) = ok a
map_err f (err e) = err (f e)

module _ {ℓ} {A : Type ℓ} where
  pub Result-cases : (r : Result A) → ((a : A) × (r ≡ ok a)) ⊎ ((e : Error) × (r ≡ err e))
  Result-cases (ok a) = inl (a, refl)
  Result-cases (err e) = inr (e, refl)

  pub ok_eq : {a b : A} → ok a ≡ ok b → a ≡ b
  ok_eq h = cc h

  pub map_err-eq_ok : (f : Error → Error) (r : Result A) {a : A} → map_err f r ≡ ok a → r ≡ ok a
  map_err-eq_ok f (ok a) h = h
  map_err-eq_ok f (err e) h = cc

module _ {ℓ κ} {A : Type ℓ} {B : Type κ} where
  pub bind-eq-ok :
      (first : Result A) (next : A → Result B) {last : B}
      → first >>= next ≡ ok last
      → (value : A) × (first ≡ ok value) × (next value ≡ ok last)
  bind-eq-ok (err e) next q = cc
  bind-eq-ok (ok value) next q = (value, refl, q)
