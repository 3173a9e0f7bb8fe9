-- ===== src/Prelude/Results.antt =====
-- The outcome of a C++ call: it returns, it throws an exception with a message, or it does what
-- the language leaves undefined, such as a read behind the end of a buffer.
use Prim.Native.Nat.{ℕ}
use mathlib.Core.List.{List}
use mathlib.Core.Bool.{Bool, false, true}
use mathlib.Core.Path.{refl, ◌≡◌}

pub data Outcome {ℓ} (A : Type ℓ) : Type ℓ where
  ok : A → Outcome A
  throw : List ℕ → Outcome A
  fault : Outcome A

-- What follows a call runs only if the call returned.
infixl 5 ◌>>◌ ◌>>=◌
abbrev pub ◌>>=◌ {ℓ κ} :
    {V : Type ℓ} {W : Type κ} (call : Outcome V) (next : V → Outcome W) → Outcome W
fault >>= next = fault
throw msg >>= next = throw msg
ok value >>= next = next value

abbrev pub ◌>>◌ {ℓ} : {W : Type ℓ} → Outcome (Unit {0}) → Outcome W → Outcome W
call >> rest = call >>= λ _. rest

-- `if (!b) throw e;`
abbrev pub require : Bool → List ℕ → Outcome (Unit {0})
require true e = ok tt
require false e = throw e

-- `try { m } catch (const std::exception& e) { handler }`
abbrev pub catch {ℓ} : {A : Type ℓ} → Outcome A → (List ℕ → Outcome A) → Outcome A
catch (ok a) h = ok a
catch (throw e) h = h e
catch fault h = fault

-- What a chain that returned went through.
pub >>=-eq-ok {ℓ κ} :
    {V : Type ℓ} {W : Type κ} (call : Outcome V) (next : V → Outcome W) {result : W}
    → (call >>= next) ≡ ok result
    → (value : V) × (call ≡ ok value) × (next value ≡ ok result)
>>=-eq-ok (throw msg) next returned = cc
>>=-eq-ok fault next returned = cc
>>=-eq-ok (ok value) next returned = (value, refl, returned)

-- Calls that return the same return the same value.
pub ok_same : {X : Type 0} {x y : X} → ok x ≡ ok y → x ≡ y
ok_same h = cc h
