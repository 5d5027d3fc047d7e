-- ===== src/Prelude/Endings.antt =====
-- Calls that may end in any way but by a fault or for want of fuel, and the rules for them.
use mathlib.Core.Path.{◌≡◌, refl}
use Prim.Native.Nat.{ℕ, zero, suc}
use mathlib.Core.Bool.{Bool, true, false}
use latency_under_load.Prelude.Tests.{if◌then◌else◌}
use latency_under_load.Prelude.Outcome.{
  no_space, no_elements, exits, faults, out_of_fuel, Result, ok, err, ◌>>=◌, Safely, times, Returns,
}

-- A call that may stop the program in any way but by a fault or for want of fuel; if it returns, its
-- value has the property.
abbrev pub Faultless {ℓ} : {A : Type ℓ} → Result A → (A → Type 0) → Type 0
Faultless (ok a) P = P a
Faultless (err no_space) P = Unit {0}
Faultless (err no_elements) P = Unit {0}
Faultless (err exits) P = Unit {0}
Faultless (err _) P = ⊥

pub Faultless->>= {ℓ κ} :
    {A : Type ℓ} {B : Type κ} (m : Result A) (f : A → Result B) (P : A → Type 0) (Q : B → Type 0)
    → Faultless m P
    → ((a : A) → P a → Faultless (f a) Q)
    → Faultless (m >>= f) Q
Faultless->>= (ok a) f P Q h k = k a h
Faultless->>= (err no_space) f P Q h k = tt
Faultless->>= (err no_elements) f P Q h k = tt
Faultless->>= (err exits) f P Q h k = tt
Faultless->>= (err faults) f P Q h k = absurd h
Faultless->>= (err out_of_fuel) f P Q h k = absurd h

pub Faultless-mono {ℓ} :
    {A : Type ℓ} (m : Result A) (P Q : A → Type 0)
    → Faultless m P
    → ((a : A) → P a → Q a)
    → Faultless m Q
Faultless-mono (ok a) P Q h k = k a h
Faultless-mono (err no_space) P Q h k = tt
Faultless-mono (err no_elements) P Q h k = tt
Faultless-mono (err exits) P Q h k = tt
Faultless-mono (err faults) P Q h k = absurd h
Faultless-mono (err out_of_fuel) P Q h k = absurd h

pub times-Faultless {ℓ} :
    {S : Type ℓ} (I : ℕ → S → Type 0) (handler : S → Result S)
    → ((n : ℕ) (s : S) → I (suc n) s → Faultless (handler s) (I n))
    → (n : ℕ) (s : S) → I n s
    → Faultless (times n handler s) (I 0)
unfolding times
times-Faultless I handler keep zero s h = h
times-Faultless I handler keep (suc n) s h =
    Faultless->>= (handler s) _ (I n) (I 0) (keep n s h)
      (λ s' h'. times-Faultless I handler keep n s' h')

pub Faultless-Returns {ℓ} :
    {A : Type ℓ} (m : Result A) (P Q : A → Type 0)
    → Faultless m P
    → Returns m Q
    → Faultless m (λ a. P a × Q a)
Faultless-Returns (ok a) P Q h k = (h, k)
Faultless-Returns (err no_space) P Q h k = tt
Faultless-Returns (err no_elements) P Q h k = tt
Faultless-Returns (err exits) P Q h k = tt
Faultless-Returns (err faults) P Q h k = absurd h
Faultless-Returns (err out_of_fuel) P Q h k = absurd h

pub Safely-Faultless {ℓ} : {A : Type ℓ} (m : Result A) (P : A → Type 0) → Safely m P → Faultless m P
Safely-Faultless (ok a) P h = h
Safely-Faultless (err no_space) P h = tt
Safely-Faultless (err no_elements) P h = absurd h
Safely-Faultless (err exits) P h = tt
Safely-Faultless (err faults) P h = absurd h
Safely-Faultless (err out_of_fuel) P h = absurd h

pub Faultless-if {ℓ} :
    {A : Type ℓ} (b : Bool) (x y : Result A) (P : A → Type 0)
    → Faultless x P
    → Faultless y P
    → Faultless (if b then x else y) P
Faultless-if true x y P h k = h
Faultless-if false x y P h k = k

pub returned {ℓ} : {A : Type ℓ} (m : Result A) (P : A → Type 0) → Faultless m P → Returns m P
returned (ok a) P h = h
returned (err e) P h = tt

-- Two steps that are faultless together, followed by a third.
pub Faultless-chain {ℓ κ μ} :
    {A : Type ℓ} {B : Type κ} {C : Type μ} (m : Result A) (f : A → Result B) (g : B → Result C)
    (P : B → Type 0) (Q : C → Type 0)
    → Faultless (m >>= f) P
    → ((b : B) → P b → Faultless (g b) Q)
    → Faultless (m >>= λ a. f a >>= g) Q
Faultless-chain (ok a) f g P Q h k = Faultless->>= (f a) g P Q h k
Faultless-chain (err no_space) f g P Q h k = tt
Faultless-chain (err no_elements) f g P Q h k = tt
Faultless-chain (err exits) f g P Q h k = tt
Faultless-chain (err faults) f g P Q h k = absurd h
Faultless-chain (err out_of_fuel) f g P Q h k = absurd h

-- A choice whose sides know how the test went.
pub Faultless-test {ℓ} :
    {A : Type ℓ} (b : Bool) (x y : Result A) (P : A → Type 0)
    → (b ≡ true → Faultless x P)
    → (b ≡ false → Faultless y P)
    → Faultless (if b then x else y) P
Faultless-test true x y P h k = h refl
Faultless-test false x y P h k = k refl

-- The value of a call that returns one is what the call is equal to.
pub Faultless-known :
    {A : Type 0} (m : Result A) (P : A → Type 0)
    → Faultless m P
    → Faultless m (λ a. (m ≡ ok a) × P a)
Faultless-known (ok a) P h = (refl, h)
Faultless-known (err no_space) P h = tt
Faultless-known (err no_elements) P h = tt
Faultless-known (err exits) P h = tt
Faultless-known (err faults) P h = absurd h
Faultless-known (err out_of_fuel) P h = absurd h
