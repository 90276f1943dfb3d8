-- ===== src/Result.antt =====
-- Go's errors, and the results of functions that may fail.
use certinv.Prelude.{ℕ, String, Bool, true, false, ◌≡◌, ◌≢◌, ◌⊎◌, inl, inr, refl}

-- An error's text: a fixed one, one about a value, or one in front of another error (`%w`).
pub data Error : Type 0 where
  message : String → Error
  about : String → String → Error
  at_line : String → ℕ → Error → Error
  wrap : String → Error → Error

-- what a Go function gives that returns a value and an error
pub data Result {ℓ} (Value : Type ℓ) : Type ℓ where
  err : (cause : Error) → Result Value
  ok : (value : Value) → Result Value

-- `if err != nil { return err }` behind a call
infixl 5 ◌>>=◌ ◌>>◌
abbrev pub ◌>>=◌ {ℓ κ} :
    {V : Type ℓ} {W : Type κ} (called : Result V) (next : V → Result W) → Result W
(err cause) >>= next = err cause
(ok value) >>= next = next value

-- the same, where the call returns an error only
abbrev pub ◌>>◌ {ℓ} : {W : Type ℓ} (called : Result (Unit {0})) (next : Result W) → Result W
called >> next = called >>= λ nothing. next

-- `if test { return error }`
abbrev pub fail_if : Bool → Error → Result (Unit {0})
fail_if true e = err e
fail_if false e = ok tt

-- a chain that succeeds: the call did, and what follows it did on its value
pub >>=-eq-ok {ℓ κ} :
    {V : Type ℓ} {W : Type κ} (called : Result V) (next : V → Result W) {last : W}
    → (called >>= next) ≡ ok last
    → (value : V) × (called ≡ ok value) × (next value ≡ ok last)
>>=-eq-ok (err cause) next e = cc
>>=-eq-ok (ok value) next e = (value, refl, e)

pub ok-injective {ℓ} : {A : Type ℓ} {a b : A} → ok a ≡ ok b → a ≡ b
ok-injective h = cc

pub Result-cases {ℓ} :
    {A : Type ℓ} (r : Result A) → ((e : Error) × (r ≡ err e)) ⊎ ((a : A) × (r ≡ ok a))
Result-cases (ok a) = inr (a, refl)
Result-cases (err e) = inl (e, refl)

pub err-ne-ok {ℓ} : {A : Type ℓ} {e : Error} {a : A} → err e ≢ ok a
err-ne-ok h = cc
