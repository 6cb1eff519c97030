-- ===== src/Prelude/Outcomes.antt =====
-- What a call of the C++ code comes to: a value, a `std::runtime_error`, or behaviour that the
-- language leaves undefined (an access outside of the memory vector).
use mathlib.Core.Path.{◌≡◌, refl}

pub data RuntimeError : Type 0 where
  read_out_of_bounds write_out_of_bounds fetch_out_of_bounds open_failed : RuntimeError

pub data Outcome (A : Type 0) : Type 0 where
  ok : A → Outcome A
  thrown : RuntimeError → Outcome A
  undefined : Outcome A

-- The second call runs on the value of the first.
infixl 5 ◌>>=◌
abbrev pub ◌>>=◌ : {A B : Type 0} → Outcome A → (A → Outcome B) → Outcome B
undefined >>= next = undefined
thrown e >>= next = thrown e
ok value >>= next = next value

-- Inversion of a chain that returned.
pub >>=-eq-ok :
    {A B : Type 0} (call : Outcome A) (next : A → Outcome B) {result : B}
    → (call >>= next) ≡ ok result
    → (value : A) × (call ≡ ok value) × (next value ≡ ok result)
>>=-eq-ok undefined next h = cc
>>=-eq-ok (thrown e) next h = cc
>>=-eq-ok (ok value) next h = (value, refl, h)
