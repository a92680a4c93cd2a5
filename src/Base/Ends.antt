-- ===== src/Base/Ends.antt =====
-- Calls that end: a postcondition of a result that may fail.
use mathlib.Core.Path.{◌≡◌, refl}
use mathlib.Core.Bool.{Bool, true, false}
use mathlib.Core.Option.{Option, some}
use bhyve_experiments.Base.Tests.{◌>>=◌, if◌then◌else◌}

-- a call that ends, with what holds of its result
pub data Ends {A : Type 0} (P : A → Type 0) : Option A → Type 0 where
  ended : (a : A) → P a → Ends P (some a)

pub then-Ends :
    {A B : Type 0}
    → (P : A → Type 0) (Q : B → Type 0) (x : Option A) (f : A → Option B) → Ends P x
    → ((a : A) → P a → Ends Q (f a))
    → Ends Q (x >>= f)
then-Ends P Q _ f (ended a p) g = g a p

pub weaker-Ends :
    {A : Type 0} → (P Q : A → Type 0) (x : Option A) → Ends P x → ((a : A) → P a → Q a) → Ends Q x
weaker-Ends P Q _ (ended a p) g = ended a (g a p)

-- a call that takes one of two ways
pub either-Ends :
    {A : Type 0}
    → (P : A → Type 0) (b : Bool) (x y : Option A) → (b ≡ true → Ends P x)
    → (b ≡ false → Ends P y)
    → Ends P (if b then x else y)
either-Ends P true x y p q = p refl
either-Ends P false x y p q = q refl
