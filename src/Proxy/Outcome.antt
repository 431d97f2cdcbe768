-- ===== src/Proxy/Outcome.antt =====
-- What the functions of the monad come to: predicates on their effects and results.
use pgfault.Base.{
  if◌then◌else◌, ◌≡◌, refl, Bool, true, false, List, nat_eq, string_eq, bytes_eq_instance,
}
use pgfault.Base.Result.{Result, ok, err}
use pgfault.Proxy.Effects.{Effect, ProxyError, M, continue}

-- What a function returns, when it returns a connection, satisfies the predicate.
abbrev pub Keeps {ℓ} : {A : Type ℓ} → (A → Type 0) → List Effect × Result ProxyError A → Type 0
Keeps P (w, ok a) = P a
Keeps P (w, err e) = Unit {0}

pub Keeps-continue {ℓ κ} :
    {A : Type ℓ} {B : Type κ} (Q : A → Type 0) (P : B → Type 0)
    (p : List Effect × Result ProxyError A) (f : A → M B)
    → Keeps Q p
    → ((a : A) (w : List Effect) → Q a → Keeps P (f a w))
    → Keeps P (continue p f)
Keeps-continue Q P (w, ok a) f q k = k a w q
Keeps-continue Q P (w, err e) f q k = tt

pub Keeps-any {ℓ} : {A : Type ℓ} (p : List Effect × Result ProxyError A) → Keeps (λ a. Unit {0}) p
Keeps-any (w, ok a) = tt
Keeps-any (w, err e) = tt

pub Keeps-if {ℓ} :
    {A : Type ℓ} (P : A → Type 0) (b : Bool) (x y : M A) (w : List Effect)
    → (b ≡ true → Keeps P (x w))
    → (b ≡ false → Keeps P (y w))
    → Keeps P ((if b then x else y) w)
Keeps-if P true x y w h k = h refl
Keeps-if P false x y w h k = k refl

-- What holds of the effects with the result, and of the effects where there is an error.
abbrev pub Leaves {ℓ} :
    {A : Type ℓ}
    → (List Effect → A → Type 0)
    → (List Effect → Type 0)
    → List Effect × Result ProxyError A
    → Type 0
Leaves P E (w, ok a) = P w a
Leaves P E (w, err e) = E w

pub Leaves-continue {ℓ κ} :
    {A : Type ℓ} {B : Type κ} (Q : List Effect → A → Type 0) (P : List Effect → B → Type 0)
    (E : List Effect → Type 0) (p : List Effect × Result ProxyError A) (f : A → M B)
    → Leaves Q E p
    → ((a : A) (w : List Effect) → Q w a → Leaves P E (f a w))
    → Leaves P E (continue p f)
Leaves-continue Q P E (w, ok a) f q k = k a w q
Leaves-continue Q P E (w, err e) f q k = q

pub Leaves-if {ℓ} :
    {A : Type ℓ} (P : List Effect → A → Type 0) (E : List Effect → Type 0) (b : Bool) (x y : M A)
    (w : List Effect)
    → (b ≡ true → Leaves P E (x w))
    → (b ≡ false → Leaves P E (y w))
    → Leaves P E ((if b then x else y) w)
Leaves-if P E true x y w h k = h refl
Leaves-if P E false x y w h k = k refl

-- Weaker predicates.
pub Leaves-map {ℓ} :
    {A : Type ℓ} (Q P : List Effect → A → Type 0) (E F : List Effect → Type 0)
    (p : List Effect × Result ProxyError A)
    → ((w : List Effect) (a : A) → Q w a → P w a)
    → ((w : List Effect) → E w → F w)
    → Leaves Q E p
    → Leaves P F p
Leaves-map Q P E F (w, ok a) k j h = k w a h
Leaves-map Q P E F (w, err e) k j h = j w h
