-- ===== src/Prelude/Attempt.antt =====
-- A Python call that returns a value or raises: the exception's class name is kept.
use Prim.Native.String.{String}
use mathlib.Core.Path.{◌≡◌, refl, ap}
use mathlib.Core.Logic.{◌≢◌}

pub data Attempt {ℓ} (A : Type ℓ) : Type ℓ where
  returned : A → Attempt A
  raised : String → Attempt A

infixl 5 ◌>>=◌
abbrev pub ◌>>=◌ {ℓ κ} : {A : Type ℓ} {B : Type κ} → Attempt A → (A → Attempt B) → Attempt B
returned a >>= f = f a
raised e >>= f = raised e

pub bind_assoc {ℓ κ μ} :
    {A : Type ℓ} {B : Type κ} {C : Type μ} (m : Attempt A) (f : A → Attempt B) (g : B → Attempt C)
    → (m >>= f >>= g) ≡ (m >>= λ a. f a >>= g)
bind_assoc (returned a) f g = refl
bind_assoc (raised e) f g = refl

pub bind-returned {ℓ κ} :
    {A : Type ℓ} {B : Type κ} (m : Attempt A) {a : A}
    → m ≡ returned a
    → (f : A → Attempt B) → (m >>= f) ≡ f a
bind-returned m p f = ap (λ x. x >>= f) p

pub raised-returned {κ} : {B : Type κ} (e : String) (b : B) → raised e ≢ returned b
raised-returned e b h = cc

pub returned-inj {ℓ} : {A : Type ℓ} {a b : A} → returned a ≡ returned b → a ≡ b
returned-inj h = cc

-- What has returned in the end has returned at every step.
pub bind_inv {ℓ κ} :
    {A : Type ℓ} {B : Type κ} (m : Attempt A) (f : A → Attempt B) (b : B)
    → (m >>= f) ≡ returned b
    → (a : A) × (m ≡ returned a) × (f a ≡ returned b)
bind_inv (returned a) f b h = (a, refl, h)
bind_inv (raised e) f b h = absurd (raised-returned e b h)
