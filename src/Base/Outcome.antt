-- ===== src/Base/Outcome.antt =====
-- Go's `(value, error)` results.
use Prim.Native.String.{String, ◌++◌}
use mathlib.Core.Path.{◌≡◌, refl}
use mathlib.Core.Logic.{◌⊎◌, inl, inr}

-- What the code asks of an error: its kind (`apierrors.IsNotFound` and the like see through
-- wrapping) and its text.
pub data Kind : Type 0 where
  not_found conflict other : Kind

pub record Error : Type 0 where
  pub kind : Kind
  pub text : String

pub data Result {ℓ} (A : Type ℓ) : Type ℓ where
  ok : A → Result A
  err : Error → Result A

-- `fmt.Errorf("…: %w", err)`
abbrev pub wrap : String → Error → Error
wrap context e = record e { text = context ++ (": " ++ e.text) }

-- `if err != nil { return err }`, then the rest of the function.
module _ {ℓ κ} {Value : Type ℓ} {Next : Type κ} where
  infixl 5 ◌>>=◌
  abbrev pub ◌>>=◌ : Result Value → (Value → Result Next) → Result Next
  r >>= rest = elim r [ ok v ↦ rest v | err e ↦ err e ]

  -- What a chain that ends without error passed through.
  pub record Passed (r : Result Value) (rest : Value → Result Next) (end : Next)
      : Type (ℓ ⊔ κ) where
    pub value : Value
    pub read : r ≡ ok value
    pub ended : rest value ≡ ok end

  pub >>=-Passed :
      (r : Result Value) (rest : Value → Result Next) {end : Next}
      → (r >>= rest) ≡ ok end
      → Passed r rest end
  >>=-Passed (err e) rest h = cc
  >>=-Passed (ok v) rest h = record { value = v; read = refl; ended = h }

-- The result with its error wrapped.
abbrev pub wrapping {ℓ} : {A : Type ℓ} → String → Result A → Result A
wrapping context (ok a) = ok a
wrapping context (err e) = err (wrap context e)

pub Result-cases {ℓ} :
    {A : Type ℓ} (r : Result A) → ((a : A) × (r ≡ ok a)) ⊎ ((e : Error) × (r ≡ err e))
Result-cases (ok a) = inl (a, refl)
Result-cases (err e) = inr (e, refl)
