-- ===== src/Errors/Laws.antt =====
-- The table of core/src/error_table.c: the wire spelling of a code reads back as that code, and no
-- spelling and no status outside 2xx is taken for a success.
use dae_moon.Prelude.{
  ℕ, ◌≤◌, ◌<◌, ◌≡◌, refl, ◌⊎◌, inl, inr, ◌↔◌, Option, none, some, [], ◌∷◌, Bytes, bytes_eq, arith,
}
use dae_moon.Errors.{◌>>=◌, Code, Result, ok, err, result_code, from_code, from_http}

-- A failure that was written to the wire is read back as the same failure.
pub from_code-result_code : (c : Code) → from_code (some (result_code c)) ≡ c
unfolding from_code result_code bytes_eq
from_code-result_code Code.invalid_request = refl
from_code-result_code _ = refl

-- The answer to a request is a success exactly when its status is in 200..299, whatever the body
-- says; outside that range a body that names a failure decides, and without one the status does.
pub from_http-ok : (s : ℕ) (c : Option Bytes) → (from_http s c ≡ ok tt) ↔ ((200 ≤ s) × (s < 300))
unfolding from_http
from_http-ok s none = ground arith
from_http-ok s (some []) = ground arith
from_http-ok s (some (x ∷ xs)) = ground arith

pub err≢ok {ℓ} : {A : Type ℓ} {a : A} {e : Code} → ¬ (Path (Result A) (err e) (ok a))
err≢ok p = cc

pub ok_inj {ℓ} : {A : Type ℓ} {a b : A} → Path (Result A) (ok a) (ok b) → a ≡ b
ok_inj p = cc

-- The value behind a chain that succeeded.
pub bound_ok {ℓ κ} :
    {A : Type ℓ} {B : Type κ} (r : Result A) (f : A → Result B) {b : B}
    → (r >>= f) ≡ ok b
    → (a : A) × (r ≡ ok a) × (f a ≡ ok b)
bound_ok (ok a) f h = (a, refl, h)
bound_ok (err e) f h = absurd (err≢ok h)

-- To split on a computed result and keep the equation.
pub Result-cases {ℓ} :
    {A : Type ℓ} (r : Result A) → ((a : A) × (r ≡ ok a)) ⊎ ((e : Code) × (r ≡ err e))
Result-cases (ok a) = inl (a, refl)
Result-cases (err e) = inr (e, refl)
