-- ===== src/Base/Logged.antt =====
-- The monad of functions that act on the world and end in a `Result`. The effects so far come in,
-- and those with the new ones go out, also when the function fails.
use mathlib.Core.List.{List, [], ◌∷◌, ◌++◌}
use pgfault.Base.Result.{Result, ok, err}

abbrev pub Logged {ℓ κ μ} : Type ℓ → Type κ → Type μ → Type (ℓ ⊔ κ ⊔ μ)
Logged E X A = List E → List E × Result X A

abbrev pub pure {ℓ κ μ} : {E : Type ℓ} {X : Type κ} {A : Type μ} → A → Logged E X A
pure a w = (w, ok a)

abbrev pub fail {ℓ κ μ} : {E : Type ℓ} {X : Type κ} {A : Type μ} → X → Logged E X A
fail e w = (w, err e)

abbrev pub continue {ℓ κ μ ν} :
    {E : Type ℓ} {X : Type κ} {A : Type μ} {B : Type ν}
    → List E × Result X A
    → (A → Logged E X B)
    → List E × Result X B
continue (w, ok a) f = f a w
continue (w, err e) f = (w, err e)

infixl 5 ◌>>=◌ ◌>>◌
abbrev pub ◌>>=◌ {ℓ κ μ ν} :
    {E : Type ℓ} {X : Type κ} {A : Type μ} {B : Type ν}
    → Logged E X A
    → (A → Logged E X B)
    → Logged E X B
◌>>=◌ m f w = continue (m w) f

abbrev pub ◌>>◌ {ℓ κ μ} :
    {E : Type ℓ} {X : Type κ} {B : Type μ} → Logged E X (Unit {0}) → Logged E X B → Logged E X B
m >> k = m >>= λ _. k

abbrev pub tell {ℓ κ} : {E : Type ℓ} {X : Type κ} → E → Logged E X (Unit {0})
tell e w = (w ++ e ∷ [], ok tt)
