-- ===== src/Base/Results.antt =====
-- Results with the server's error values.
use mathlib.Core.Path.{◌≡◌, refl}
use mathlib.Core.Logic.{◌≢◌, ◌⊎◌, inl, inr}
use mathlib.Core.Bool.{Bool, true, false, not}
use mathlib.Core.Option.{Option, none, some}

-- `decoding` is an error of encoding/json, `constraint` one of the database, `panics` a run-time
-- panic of the program.
pub data Error : Type 0 where
  invalid unauthorized conflict no_rows too_large watched decoding constraint panics : Error

pub data Result {ℓ} (Value : Type ℓ) : Type ℓ where
  ok : Value → Result Value
  err : Error → Result Value

-- The error of a step that has no result.
abbrev pub demand {ℓ} : {Value : Type ℓ} → Error → Option Value → Result Value
demand why none = err why
demand why (some v) = ok v

infixl 5 ◌>>=◌ ◌>>◌
abbrev pub ◌>>=◌ {ℓ κ} :
    {Value : Type ℓ} {Next : Type κ} (step : Result Value) (next : Value → Result Next)
    → Result Next
err why >>= next = err why
ok v >>= next = next v

-- `if bad { return e }`
abbrev pub reject : Bool → Error → Result (Unit {0})
reject true e = err e
reject false e = ok tt

-- A step without a result, as `reject`.
abbrev pub ◌>>◌ {ℓ} : {Next : Type ℓ} (step : Result (Unit {0})) (next : Result Next) → Result Next
step >> next = step >>= λ _. next

pub >>=-eq-ok {ℓ κ} :
    {Value : Type ℓ} {Next : Type κ} (step : Result Value) (next : Value → Result Next) {b : Next}
    (done : (step >>= next) ≡ ok b)
    → (v : Value) × (step ≡ ok v) × (next v ≡ ok b)
>>=-eq-ok (err why) next done = cc
>>=-eq-ok (ok v) next done = (v, refl, done)

pub reject-eq-ok : (b : Bool) (e : Error) → reject b e ≡ ok tt → b ≡ false
reject-eq-ok true e h = cc
reject-eq-ok false e h = refl

pub >>=-ne-err {ℓ κ} :
    {A : Type ℓ} {B : Type κ} (m : Result A) (f : A → Result B) (e : Error)
    → m ≢ err e
    → ((a : A) → m ≡ ok a → f a ≢ err e)
    → (m >>= f) ≢ err e
>>=-ne-err (ok a) f e _ h = h a refl
>>=-ne-err (err d) f e h _ = λ p. h (cc p)

pub ok_unique {ℓ} : {A : Type ℓ} (m : Result A) {a b : A} → m ≡ ok a → m ≡ ok b → a ≡ b
ok_unique m h k = cc

pub demand-eq-ok {ℓ} :
    {A : Type ℓ} (e : Error) (o : Option A) (a : A) → demand e o ≡ ok a → o ≡ some a
demand-eq-ok e none a h = cc
demand-eq-ok e (some b) a h = cc

pub reject-not-eq-ok : (b : Bool) (e : Error) → reject (not b) e ≡ ok tt → b ≡ true
reject-not-eq-ok true e h = refl
reject-not-eq-ok false e h = cc

pub Result-cases {ℓ} :
    {Value : Type ℓ} (m : Result Value) → ((v : Value) × (m ≡ ok v)) ⊎ ((e : Error) × (m ≡ err e))
Result-cases (ok v) = inl (v, refl)
Result-cases (err e) = inr (e, refl)
