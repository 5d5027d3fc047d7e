-- ===== src/Prelude/Outcome.antt =====
-- What a call comes to: a value, or one of the ways in which the program stops.

use mathlib.Core.Path.{◌≡◌, refl}
use Prim.Native.Nat.{ℕ, zero, suc}
use mathlib.Core.Bool.{Bool, true, false}
use latency_under_load.Prelude.Tests.{if◌then◌else◌}

-- `throw` of a text, `exit(-1)`, an access outside an allocated object, and a model's loop that
-- has used up its fuel.
pub data Failure : Type 0 where
  no_space no_elements exits faults out_of_fuel : Failure

pub data Result {ℓ} (A : Type ℓ) : Type ℓ where
  ok : A → Result A
  err : Failure → Result A

infixl 5 ◌>>=◌
abbrev pub ◌>>=◌ {ℓ κ} : {A : Type ℓ} {B : Type κ} → Result A → (A → Result B) → Result B
ok a >>= f = f a
err e >>= f = err e

-- A call that succeeds, with a property of its value.
abbrev pub Succeeds {ℓ} : {A : Type ℓ} → Result A → (A → Type 0) → Type 0
Succeeds (ok a) P = P a
Succeeds (err e) P = ⊥

pub Succeeds-value {ℓ} :
    {A : Type ℓ} (m : Result A) (P : A → Type 0) → Succeeds m P → (a : A) × (m ≡ ok a) × P a
Succeeds-value (ok a) P h = (a, refl, h)
Succeeds-value (err e) P h = absurd h

-- A call that may stop the program in an orderly way, by an exit or because a queue has no space: if
-- it returns, its value has the property. It makes no access outside an allocated object, takes
-- nothing from an empty queue, and ends.
abbrev pub Safely {ℓ} : {A : Type ℓ} → Result A → (A → Type 0) → Type 0
Safely (ok a) P = P a
Safely (err no_space) P = Unit {0}
Safely (err exits) P = Unit {0}
Safely (err _) P = ⊥

-- A step that is safe, followed by one that is safe from what the first ensures.
pub Safely->>= {ℓ κ} :
    {A : Type ℓ} {B : Type κ} (m : Result A) (f : A → Result B) (P : A → Type 0) (Q : B → Type 0)
    → Safely m P
    → ((a : A) → P a → Safely (f a) Q)
    → Safely (m >>= f) Q
Safely->>= (ok a) f P Q h k = k a h
Safely->>= (err no_space) f P Q h k = tt
Safely->>= (err no_elements) f P Q h k = absurd h
Safely->>= (err exits) f P Q h k = tt
Safely->>= (err faults) f P Q h k = absurd h
Safely->>= (err out_of_fuel) f P Q h k = absurd h

pub Safely-mono {ℓ} :
    {A : Type ℓ} (m : Result A) (P Q : A → Type 0) → Safely m P → ((a : A) → P a → Q a) → Safely m Q
Safely-mono (ok a) P Q h k = k a h
Safely-mono (err no_space) P Q h k = tt
Safely-mono (err no_elements) P Q h k = absurd h
Safely-mono (err exits) P Q h k = tt
Safely-mono (err faults) P Q h k = absurd h
Safely-mono (err out_of_fuel) P Q h k = absurd h

-- A handler that is called a number of times, `for (int i = 0; i < list_size; i++)`.
unfoldable pub times {ℓ} : {S : Type ℓ} → ℕ → (S → Result S) → S → Result S
times zero handler s = ok s
times (suc n) handler s = do s' ← handler s; times n handler s'

-- The rule for such a loop: an invariant that names the number of calls that are left.
pub times-Safely {ℓ} :
    {S : Type ℓ} (I : ℕ → S → Type 0) (handler : S → Result S)
    → ((n : ℕ) (s : S) → I (suc n) s → Safely (handler s) (I n))
    → (n : ℕ) (s : S) → I n s
    → Safely (times n handler s) (I 0)
unfolding times
times-Safely I handler keep zero s h = h
times-Safely I handler keep (suc n) s h =
    Safely->>= (handler s) _ (I n) (I 0) (keep n s h) (λ s' h'. times-Safely I handler keep n s' h')

-- What holds of the value of a call, if it returns one.
abbrev pub Returns {ℓ} : {A : Type ℓ} → Result A → (A → Type 0) → Type 0
Returns (ok a) P = P a
Returns (err e) P = Unit {0}

pub Returns-any {ℓ} : {A : Type ℓ} (m : Result A) → Returns m (λ _. Unit {0})
Returns-any (ok a) = tt
Returns-any (err e) = tt

pub Returns->>= {ℓ κ} :
    {A : Type ℓ} {B : Type κ} (m : Result A) (f : A → Result B) (P : A → Type 0) (Q : B → Type 0)
    → Returns m P
    → ((a : A) → P a → Returns (f a) Q)
    → Returns (m >>= f) Q
Returns->>= (ok a) f P Q h k = k a h
Returns->>= (err e) f P Q h k = tt

-- A step of which nothing is known but that it has returned.
pub after {ℓ κ} :
    {A : Type ℓ} {B : Type κ} (m : Result A) (f : A → Result B) (Q : B → Type 0)
    → ((a : A) → Returns (f a) Q)
    → Returns (m >>= f) Q
after m f Q k = Returns->>= m f (λ _. Unit {0}) Q (Returns-any m) (λ a _. k a)

pub Safely-Returns {ℓ} :
    {A : Type ℓ} (m : Result A) (P Q : A → Type 0)
    → Safely m P
    → Returns m Q
    → Safely m (λ a. P a × Q a)
Safely-Returns (ok a) P Q h k = (h, k)
Safely-Returns (err no_space) P Q h k = tt
Safely-Returns (err no_elements) P Q h k = absurd h
Safely-Returns (err exits) P Q h k = tt
Safely-Returns (err faults) P Q h k = absurd h
Safely-Returns (err out_of_fuel) P Q h k = absurd h

pub Returns-if {ℓ} :
    {A : Type ℓ} (b : Bool) (x y : Result A) (P : A → Type 0)
    → Returns x P
    → Returns y P
    → Returns (if b then x else y) P
Returns-if true x y P h k = h
Returns-if false x y P h k = k

-- The rule for a loop of which nothing is known but that it has ended.
pub times-Returns {ℓ} :
    {S : Type ℓ} (I : S → Type 0) (handler : S → Result S)
    → ((s : S) → I s → Returns (handler s) I)
    → (n : ℕ) (s : S) → I s
    → Returns (times n handler s) I
unfolding times
times-Returns I handler keep zero s h = h
times-Returns I handler keep (suc n) s h =
    Returns->>= (handler s) _ I I (keep s h) (λ s' h'. times-Returns I handler keep n s' h')

pub Returns-mono {ℓ} :
    {A : Type ℓ} (m : Result A) (P Q : A → Type 0)
    → Returns m P
    → ((a : A) → P a → Q a)
    → Returns m Q
Returns-mono (ok a) P Q h k = k a h
Returns-mono (err e) P Q h k = tt
