-- ===== src/Base/Results.antt =====
-- What a C computation comes to: a value, undefined behaviour, a failed `assert`, or the end of
-- the fuel that a loop of the model runs on.
use mathlib.Core.Path.{◌≡◌, refl, subst}
use mathlib.Core.Logic.{◌≢◌}
use mathlib.Core.Bool.{Bool, true, false}
use mathlib.Core.Option.{Option, none, some}

pub data Outcome {ℓ} (A : Type ℓ) : Type ℓ where
  ok : A → Outcome A
  fault : Outcome A
  aborted : Outcome A
  out_of_fuel : Outcome A

infixl 5 ◌>>=◌ ◌>>◌
abbrev pub ◌>>=◌ {ℓ κ} : {A : Type ℓ} {B : Type κ} → Outcome A → (A → Outcome B) → Outcome B
fault >>= next = fault
aborted >>= next = aborted
out_of_fuel >>= next = out_of_fuel
ok value >>= next = next value

abbrev pub ◌>>◌ {ℓ} : {B : Type ℓ} → Outcome (Unit {0}) → Outcome B → Outcome B
first >> next = first >>= λ _. next

-- `assert(b)`.
abbrev pub assert : Bool → Outcome (Unit {0})
assert true = ok tt
assert false = aborted

-- What the C standard leaves undefined unless `b` holds.
abbrev pub require : Bool → Outcome (Unit {0})
require true = ok tt
require false = fault

-- `assert(p != NULL)`, with the value that the pointer leads to.
abbrev pub assert_some {ℓ} : {A : Type ℓ} → Option A → Outcome A
assert_some none = aborted
assert_some (some a) = ok a

-- Inversion of a computation that returned.
pub >>=-eq-ok {ℓ κ} :
    {A : Type ℓ} {B : Type κ} (run : Outcome A) (next : A → Outcome B) {result : B}
    → (run >>= next) ≡ ok result
    → (value : A) × (run ≡ ok value) × (next value ≡ ok result)
>>=-eq-ok (ok value) next h = (value, refl, h)
>>=-eq-ok fault next h = cc
>>=-eq-ok aborted next h = cc
>>=-eq-ok out_of_fuel next h = cc

pub ok-injective {ℓ} : {A : Type ℓ} {a b : A} → ok a ≡ ok b → a ≡ b
ok-injective e = cc

-- Where an assertion holds, what follows it is run.
pub assert_holds {ℓ} :
    {B : Type ℓ} {b : Bool} (e : b ≡ true) (k : Unit {0} → Outcome B) → (assert b >>= k) ≡ k tt
assert_holds e k = rw e

pub assert-true : (b : Bool) {u : Unit {0}} → assert b ≡ ok u → b ≡ true
assert-true true e = refl
assert-true false e = cc

-- What holds of the value, if a computation returns one.
abbrev pub Always {ℓ κ} : {A : Type ℓ} → (A → Type κ) → Outcome A → Type κ
Always P fault = Unit
Always P aborted = Unit
Always P out_of_fuel = Unit
Always P (ok value) = P value

pub Always-bind {ℓ κ μ} :
    {A : Type ℓ} {B : Type κ} (P : B → Type μ) (run : Outcome A) (next : A → Outcome B)
    → ((value : A) → run ≡ ok value → Always P (next value))
    → Always P (run >>= next)
Always-bind P (ok value) next h = h value refl
Always-bind P fault next h = tt
Always-bind P aborted next h = tt
Always-bind P out_of_fuel next h = tt

pub Always-ok {ℓ κ} :
    {A : Type ℓ} (P : A → Type κ) (run : Outcome A) {value : A}
    → Always P run
    → run ≡ ok value
    → P value
Always-ok P (ok value) h e = subst P (ok-injective e) h
Always-ok P fault h e = cc
Always-ok P aborted h e = cc
Always-ok P out_of_fuel h e = cc

pub Always-mono {ℓ κ μ} :
    {A : Type ℓ} (P : A → Type κ) (Q : A → Type μ) (run : Outcome A)
    → ((value : A) → P value → Q value)
    → Always P run
    → Always Q run
Always-mono P Q (ok value) h a = h value a
Always-mono P Q fault h a = tt
Always-mono P Q aborted h a = tt
Always-mono P Q out_of_fuel h a = tt

-- The fuel is enough, and the value, if there is one, is as it should be.
abbrev pub Ends {ℓ} : {A : Type ℓ} → (A → Type 0) → Outcome A → Type 0
Ends P fault = Unit
Ends P aborted = Unit
Ends P out_of_fuel = ⊥
Ends P (ok value) = P value

pub Ends-bind {ℓ κ} :
    {A : Type ℓ} {B : Type κ} (Q : A → Type 0) (P : B → Type 0) (run : Outcome A)
    (next : A → Outcome B)
    → Ends Q run
    → ((value : A) → Q value → Ends P (next value))
    → Ends P (run >>= next)
Ends-bind Q P (ok value) next h k = k value h
Ends-bind Q P fault next h k = tt
Ends-bind Q P aborted next h k = tt
Ends-bind Q P out_of_fuel next h k = absurd h

pub Ends-map {ℓ} :
    {A : Type ℓ} (Q P : A → Type 0) (run : Outcome A)
    → ((value : A) → Q value → P value)
    → Ends Q run
    → Ends P run
Ends-map Q P (ok value) f h = f value h
Ends-map Q P fault f h = tt
Ends-map Q P aborted f h = tt
Ends-map Q P out_of_fuel f h = h

pub Ends-out_of_fuel {ℓ} :
    {A : Type ℓ} (P : A → Type 0) (run : Outcome A) → Ends P run → run ≢ out_of_fuel
Ends-out_of_fuel P (ok value) h e = cc
Ends-out_of_fuel P fault h e = cc
Ends-out_of_fuel P aborted h e = cc
Ends-out_of_fuel P out_of_fuel h e = h

-- A computation without fuel.
abbrev pub Whatever {ℓ} : {A : Type ℓ} → A → Type 0
Whatever a = Unit {0}

pub require-Ends : (b : Bool) → Ends Whatever (require b)
require-Ends true = tt
require-Ends false = tt

-- Nothing undefined happens and no assertion fails; the value, if there is one, is as it should be.
abbrev pub Safe {ℓ} : {A : Type ℓ} → (A → Type 0) → Outcome A → Type 0
Safe P fault = ⊥
Safe P aborted = ⊥
Safe P out_of_fuel = Unit
Safe P (ok value) = P value

pub Safe-bind {ℓ κ} :
    {A : Type ℓ} {B : Type κ} (Q : A → Type 0) (P : B → Type 0) (run : Outcome A)
    (next : A → Outcome B)
    → Safe Q run
    → ((value : A) → Q value → Safe P (next value))
    → Safe P (run >>= next)
Safe-bind Q P (ok value) next h k = k value h
Safe-bind Q P fault next h k = absurd h
Safe-bind Q P aborted next h k = absurd h
Safe-bind Q P out_of_fuel next h k = tt

-- With enough fuel a safe computation returns.
pub Safe-Ends {ℓ} :
    {A : Type ℓ} (P : A → Type 0) (run : Outcome A)
    → Safe P run
    → run ≢ out_of_fuel
    → (value : A) × (run ≡ ok value) × P value
Safe-Ends P (ok value) h enough = (value, refl, h)
Safe-Ends P fault h enough = absurd h
Safe-Ends P aborted h enough = absurd h
Safe-Ends P out_of_fuel h enough = absurd (enough refl)
