-- ===== src/Common/Faults.antt =====
-- What a service method gives back: a value, or the exception that it throws.
use Prim.Native.String.{String}
use mathlib.Core.Path.{◌≡◌, refl}
use mathlib.Core.Logic.{◌⊎◌, inl, inr}
use mathlib.Core.Bool.{Bool, true, false}
use mathlib.Core.Option.{Option, none, some}

-- The exception classes of the services; `failure` is a plain `Error`.
pub data Fault : Type 0 where
  unauthorized forbidden bad_request not_found conflict unavailable failure : String → Fault

pub data Outcome {ℓ} (A : Type ℓ) : Type ℓ where
  err : Fault → Outcome A
  ok : A → Outcome A

-- `if (!test) throw fault`
abbrev pub ensure : Bool → Fault → Outcome (Unit {0})
ensure test fault = elim test [ true ↦ ok tt | false ↦ err fault ]

-- `if (!row) throw fault`
abbrev pub require {ℓ} : {A : Type ℓ} → Option A → Fault → Outcome A
require none fault = err fault
require (some row) fault = ok row

-- The statements after one that may throw.
infixl 5 ◌>>=◌ ◌>>◌
abbrev pub ◌>>=◌ {ℓ κ} : {A : Type ℓ} {B : Type κ} → Outcome A → (A → Outcome B) → Outcome B
err fault >>= next = err fault
ok value >>= next = next value

abbrev pub ◌>>◌ {ℓ} : {B : Type ℓ} → Outcome (Unit {0}) → Outcome B → Outcome B
first >> rest = first >>= λ _. rest

-- Statements that return went past the first one, with its value.
pub >>=-eq-ok {ℓ κ} :
    {X : Type ℓ} {Y : Type κ} (first : Outcome X) (next : X → Outcome Y) {result : Y}
    → (first >>= next) ≡ ok result
    → (value : X) × (first ≡ ok value) × (next value ≡ ok result)
>>=-eq-ok (err fault) next returned = cc
>>=-eq-ok (ok value) next returned = (value, refl, returned)

pub Outcome-cases {ℓ} :
    {A : Type ℓ} (m : Outcome A) → ((a : A) × (m ≡ ok a)) ⊎ ((e : Fault) × (m ≡ err e))
Outcome-cases (ok a) = inl (a, refl)
Outcome-cases (err e) = inr (e, refl)

pub ensure_lem : (b : Bool) (fault : Fault) {u : Unit {0}} → ensure b fault ≡ ok u → b ≡ true
ensure_lem true fault e = refl
ensure_lem false fault e = cc

pub require_lem {ℓ} :
    {A : Type ℓ} (o : Option A) (fault : Fault) {a : A} → require o fault ≡ ok a → o ≡ some a
require_lem none fault e = cc
require_lem (some a) fault e = cc
