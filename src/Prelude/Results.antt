-- ===== src/Prelude/Results.antt =====
-- `Result<T, E>` and the `?` operator as a bind; `do` blocks chain early returns.
use mathlib.Core.Path.{◌≡◌, refl}
use mathlib.Core.Logic.{◌⊎◌, inl, inr}
use mathlib.Core.Bool.{Bool, true, false}
use mathlib.Core.Option.{Option, none, some}
use summoners.Prelude.Tests.{if◌then◌else◌}

pub data Result {ℓ κ} (A : Type ℓ) (E : Type κ) : Type (ℓ ⊔ κ) where
  ok : A → Result A E
  err : E → Result A E

infixl 5 ◌>>=◌ ◌>>◌
abbrev pub ◌>>=◌ {ℓ κ μ} :
    {A : Type ℓ} {B : Type κ} {E : Type μ} → Result A E → (A → Result B E) → Result B E
ok a >>= f = f a
err e >>= f = err e

abbrev pub ◌>>◌ {κ μ} : {B : Type κ} {E : Type μ} → Result (Unit {0}) E → Result B E → Result B E
m >> k = m >>= λ _. k

-- `if !b { return Err(e) }`.
abbrev pub guard {μ} : {E : Type μ} → Bool → E → Result (Unit {0}) E
guard true e = ok tt
guard false e = err e

abbrev pub ok_or {ℓ μ} : {A : Type ℓ} {E : Type μ} → Option A → E → Result A E
ok_or none e = err e
ok_or (some a) e = ok a

-- Inversion of a chain that succeeded.
pub >>=-eq-ok {ℓ κ μ} :
    {A : Type ℓ} {B : Type κ} {E : Type μ} (first : Result A E) (next : A → Result B E) {last : B}
    → (first >>= next) ≡ ok last
    → (value : A) × (first ≡ ok value) × (next value ≡ ok last)
>>=-eq-ok (err failure) next accepted = cc
>>=-eq-ok (ok value) next accepted = (value, refl, accepted)

pub guard-eq-ok {μ} : {E : Type μ} (b : Bool) (e : E) {u : Unit {0}} → guard b e ≡ ok u → b ≡ true
guard-eq-ok true e h = refl
guard-eq-ok false e h = cc

pub ok_or-eq-ok {ℓ μ} :
    {A : Type ℓ} {E : Type μ} (o : Option A) (e : E) {a : A} → ok_or o e ≡ ok a → o ≡ some a
ok_or-eq-ok none e h = cc
ok_or-eq-ok (some x) e h = cc

pub Result-cases {ℓ μ} :
    {A : Type ℓ} {E : Type μ} (r : Result A E) → ((a : A) × (r ≡ ok a)) ⊎ ((e : E) × (r ≡ err e))
Result-cases (ok a) = inl (a, refl)
Result-cases (err e) = inr (e, refl)

pub ok-injective {ℓ μ} :
    {A : Type ℓ} {E : Type μ} {r : Result A E} {a b : A} → r ≡ ok a → r ≡ ok b → a ≡ b
ok-injective h k = cc

-- `if b { return Err(e) }`, with the test written as the source has it.
pub if-eq-ok {ℓ μ} :
    {A : Type ℓ} {E : Type μ} (b : Bool) (e : E) (r : Result A E) {a : A}
    → (if b then err e else r) ≡ ok a
    → (b ≡ false) × (r ≡ ok a)
if-eq-ok true e r h = cc
if-eq-ok false e r h = (refl, h)
