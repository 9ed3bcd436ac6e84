-- ===== src/Common/Errors.antt =====
-- Python's exceptions as values, and calls that act on a world and may raise. What was written before
-- a raise stays written, so the world comes back beside the error too.
use Prim.Native.String.{String}
use mathlib.Core.Path.{◌≡◌, refl, ap}
use mathlib.Core.Logic.{◌⊎◌, inl, inr}
use mathlib.Core.Bool.{Bool, true, false}

-- The classes that the program tells apart; `other` is any other class, by its name.
pub data ErrorClass : Type 0 where
  cannot_connect invalid_auth auth_error service_unavailable timeout_error transient_error :
      ErrorClass
  operation_in_progress rejected value_error : ErrorClass
  other : String → ErrorClass

pub record Exception : Type 0 where
  pub class : ErrorClass
  pub message : String

pub data Result (A : Type 0) : Type 0 where
  ok : A → Result A
  err : Exception → Result A

abbrev pub Action : Type 0 → Type 0 → Type 0
Action W A = W → Result A × W

abbrev pub is_ok : {A : Type 0} → Result A → Bool
is_ok (ok _) = true
is_ok (err _) = false

module _ {W A B : Type 0} where
  abbrev pub continue : Result A → (A → Action W B) → Action W B
  continue (ok a) f w = f a w
  continue (err e) f w = (err e, w)

  infixl 5 ◌>>=◌ ◌>>◌
  abbrev pub ◌>>=◌ : Action W A → (A → Action W B) → Action W B
  ◌>>=◌ m f w = let (r, w') = m w in continue r f w'

  abbrev pub ◌>>◌ : Action W A → Action W B → Action W B
  m >> k = m >>= λ _. k

module _ {W A : Type 0} where
  abbrev pub pure : A → Action W A
  pure a w = (ok a, w)

  abbrev pub raise : Exception → Action W A
  raise e w = (err e, w)

  abbrev pub gets : (W → A) → Action W A
  gets f w = (ok (f w), w)

module _ {W A B C : Type 0} (P : W → C) where
  -- A call whose continuation leaves `P` alone ends with what its first part left.
  pub continue-keeps :
      (r : Result A) (k : A → Action W B) (w : W)
      → ((a : A) (v : W) → P (k a v).1 ≡ P v)
      → P (continue r k w).1 ≡ P w
  continue-keeps (ok a) k w h = h a w
  continue-keeps (err e) k w h = refl

module _ {W A B : Type 0} where
  pub continue-ok :
      (r : Result A) (k : A → Action W B) (w : W)
      → is_ok (continue r k w).0 ≡ true
      → (a : A) × (r ≡ ok a) × (is_ok (k a w).0 ≡ true)
  continue-ok (ok a) k w h = (a, refl, h)
  continue-ok (err e) k w h = cc

  -- A call that returned a value goes on as its continuation.
  pub continue-of_ok :
      (r : Result A) (k : A → Action W B) (a : A) (w : W) → r ≡ ok a → continue r k w ≡ k a w
  continue-of_ok r k a w h = ap (λ (q : Result A). continue q k w) h

  pub continue-of_err :
      (r : Result A) (k : A → Action W B) (e : Exception) (w : W)
      → r ≡ err e
      → continue r k w ≡ (err e, w)
  continue-of_err r k e w h = ap (λ (q : Result A). continue q k w) h

pub Result-cases :
    {A : Type 0} (r : Result A) → ((a : A) × (r ≡ ok a)) ⊎ ((e : Exception) × (r ≡ err e))
Result-cases (ok a) = inl (a, refl)
Result-cases (err e) = inr (e, refl)

-- What every call of a continuation preserves, the chain preserves.
pub continue-preserves :
    {W A B : Type 0} (P : W → Type 0) (r : Result A) (k : A → Action W B) (w : W)
    → P w
    → ((a : A) (v : W) → P v → P (k a v).1)
    → P (continue r k w).1
continue-preserves P (ok a) k w h s = s a w h
continue-preserves P (err e) k w h s = h
