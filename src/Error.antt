-- ===== src/Error.antt =====
-- stellar_sdk/exceptions.py: the exceptions that the modelled code raises, as values, and the chain
-- of steps that may raise. The last constructors are Python's own exceptions.
use py_stellar_base.Prelude.{Bool, true, false, ◌≡◌, refl}

pub data Error : Type 0 where
  value_error type_error attribute_error bad_signature : Error
  ed25519_public_key_invalid ed25519_secret_seed_invalid muxed_account_invalid : Error
  missing_secret_seed memo_invalid asset_code_invalid asset_issuer_invalid : Error
  no_approximation signature_exist invalid_challenge account_requires_memo : Error
  not_implemented zero_division builtin_type_error builtin_value_error binascii_error : Error
  overflow_error xdr_error eof_error struct_error unicode_error not_found out_of_fuel : Error

-- What a call ends in: an exception that it raised, or the value that it returned.
pub data Result {ℓ} (V : Type ℓ) : Type ℓ where
  ok : V → Result V
  err : Error → Result V

-- `if not test: raise e`
abbrev pub require : Bool → Error → Result (Unit {0})
require test e = elim test [ true ↦ ok tt | false ↦ err e ]

-- The next step runs on the value; an exception goes on to the caller.
infixl 5 ◌>>=◌
abbrev pub ◌>>=◌ {κ ι} : {V : Type κ} {W : Type ι} → Result V → (V → Result W) → Result W
err raised >>= step = err raised
ok value >>= step = step value

infixl 5 ◌>>◌
abbrev pub ◌>>◌ {ι} : {W : Type ι} → Result (Unit {0}) → Result W → Result W
first >> next = first >>= λ _. next

-- `try: r except Exception: raise e`
abbrev pub or_raise {ℓ} : {A : Type ℓ} → Result A → Error → Result A
or_raise (ok a) e = ok a
or_raise (err _) e = err e

-- `try: r except ...: return False; return True`
abbrev pub succeeds {ℓ} : {A : Type ℓ} → Result A → Bool
succeeds (ok _) = true
succeeds (err _) = false

-- Two steps that returned a value: the first did too, and the second on it.
module _ {κ ι} {V : Type κ} {W : Type ι} where
  pub >>=-eq-ok :
      (first : Result V) (step : V → Result W) {w : W}
      → (first >>= step) ≡ ok w
      → (v : V) × (first ≡ ok v) × (step v ≡ ok w)
  >>=-eq-ok (err raised) step h = cc
  >>=-eq-ok (ok value) step h = (value, refl, h)

-- What a test that passed, a handler that was not needed, and a call that did not raise tell.
pub require-eq-ok : (test : Bool) (e : Error) → require test e ≡ ok tt → test ≡ true
require-eq-ok true e h = refl
require-eq-ok false e h = cc

module _ {ℓ} {A : Type ℓ} where
  pub or_raise-eq-ok : (r : Result A) (e : Error) {a : A} → or_raise r e ≡ ok a → r ≡ ok a
  or_raise-eq-ok (ok b) e h = h
  or_raise-eq-ok (err x) e h = cc

  pub succeeds-eq-true : (r : Result A) → succeeds r ≡ true → (a : A) × (r ≡ ok a)
  succeeds-eq-true (ok a) h = (a, refl)
  succeeds-eq-true (err e) h = cc

  pub ok-injective : {a b : A} → ok a ≡ ok b → a ≡ b
  ok-injective h = cc
