-- ===== src/Prelude/Outcome.antt =====
-- `Result<T, E>` with the error type of the component, and its `?` as a bind.
use mathlib.Core.Path.{◌≡◌, refl, ap}

pub data Result {ε α} (E : Type ε) (T : Type α) : Type (α ⊔ ε) where
  err : E → Result E T
  ok : T → Result E T

infixl 5 ◌>>=◌ ◌>>◌
abbrev pub ◌>>=◌ {ε α β} :
    {E : Type ε} {T : Type α} {U : Type β} (m : Result E T) (next : T → Result E U) → Result E U
err e >>= next = err e
ok t >>= next = next t

-- A result with a successful bind comes from a success.
pub >>=-eq-ok {ε α β} :
    {E : Type ε} {T : Type α} {U : Type β} (m : Result E T) (next : T → Result E U) {u : U}
    → (m >>= next) ≡ ok u
    → (t : T) × (m ≡ ok t) × (next t ≡ ok u)
>>=-eq-ok (err e) next h = cc
>>=-eq-ok (ok t) next h = (t, refl, h)

-- The bind of a statement without a value.
abbrev pub ◌>>◌ {ε β} : {E : Type ε} {U : Type β} → Result E (Unit {0}) → Result E U → Result E U
err e >> rest = err e
ok _ >> rest = rest

abbrev ok_or {ε α} : {E : Type ε} {T : Type α} → T → Result E T → T
ok_or otherwise (err e) = otherwise
ok_or otherwise (ok t) = t

pub ok-injective {ε α} :
    {E : Type ε} {T : Type α} (a b : T) → ◌≡◌ {A = Result E T} (ok a) (ok b) → a ≡ b
ok-injective a b h = ap (ok_or a) h
