-- ===== src/Base/Errors.antt =====
-- Code that may throw: the value that it returns, or the error that it throws.
use Prim.Native.String.{String}
use mathlib.Core.Path.{◌≡◌, refl, ap}
use mathlib.Core.Logic.{◌⊎◌, inl, inr}

-- A JavaScript `Error`.
pub record Error : Type 0 where
  pub name : String
  pub message : String

pub data Result {ℓ} (A : Type ℓ) : Type ℓ where
  ok : A → Result A
  thrown : Error → Result A

-- `await` of code whose error goes on to the caller.
infixl 5 ◌>>=◌
abbrev pub ◌>>=◌ {ℓ κ} : {B : Type κ} {A : Type ℓ} → Result A → (A → Result B) → Result B
thrown error >>= continue = thrown error
ok value >>= continue = continue value

-- `try { ... } catch (error) { ... }`.
abbrev pub catch {ℓ} : {A : Type ℓ} → Result A → (Error → A) → A
catch (ok a) h = a
catch (thrown e) h = h e

pub Result-cases {ℓ} :
    {A : Type ℓ} (r : Result A) → ((a : A) × (r ≡ ok a)) ⊎ ((e : Error) × (r ≡ thrown e))
Result-cases (ok a) = inl (a, refl)
Result-cases (thrown e) = inr (e, refl)

-- A chain that returns has a first step that returns.
pub >>=-eq-ok {ℓ κ} :
    {A : Type ℓ} {B : Type κ} (first : Result A) (continue : A → Result B) {result : B}
    → (first >>= continue) ≡ ok result
    → (value : A) × (first ≡ ok value) × (continue value ≡ ok result)
>>=-eq-ok (thrown error) continue returned = absurd (cc)
>>=-eq-ok (ok value) continue returned = (value, refl, returned)

abbrev value_or {ℓ} : {A : Type ℓ} → A → Result A → A
value_or default (ok a) = a
value_or default (thrown e) = default

pub ok_injective {ℓ} : {A : Type ℓ} {a b : A} → ok a ≡ ok b → a ≡ b
ok_injective {a} e = ap (value_or a) e
