-- ===== src/Prelude/Outcome.antt =====
-- What a call of the program's code ends in: a value, an error that `?` passes on (`anyhow::Error`,
-- as the causes `E` of the module at hand), or a panic.
use mathlib.Core.Path.{◌≡◌}
use mathlib.Core.Bool.{Bool, true, false}
use mathlib.Core.Option.{Option, none, some}

pub data Outcome {ℓ} (E : Type 0) (A : Type ℓ) : Type ℓ where
  ok : A → Outcome E A
  err : E → Outcome E A
  panic : Outcome E A

infixl 5 ◌>>=◌ ◌>>◌
abbrev pub ◌>>=◌ {ℓ κ} :
    {E : Type 0} {A : Type ℓ} {B : Type κ} → Outcome E A → (A → Outcome E B) → Outcome E B
ok a >>= f = f a
err e >>= f = err e
panic >>= f = panic

abbrev pub ◌>>◌ {ℓ} : {E : Type 0} {B : Type ℓ} → Outcome E (Unit {0}) → Outcome E B → Outcome E B
m >> k = m >>= λ _. k

-- `Option::unwrap`
abbrev pub unwrap {ℓ} : {E : Type 0} {A : Type ℓ} → Option A → Outcome E A
unwrap none = panic
unwrap (some a) = ok a

-- `ok_or`
abbrev pub ok_or {ℓ} : {E : Type 0} {A : Type ℓ} → Option A → E → Outcome E A
ok_or none e = err e
ok_or (some a) e = ok a

-- A condition without which the code panics, such as a slice index within bounds.
abbrev pub require : {E : Type 0} → Bool → Outcome E (Unit {0})
require true = ok tt
require false = panic

-- The call returns, and its value satisfies `P`.
abbrev pub Yields {ℓ} : {E : Type 0} {A : Type ℓ} → (A → Type 0) → Outcome E A → Type 0
Yields P (ok a) = P a
Yields P (err e) = ⊥
Yields P panic = ⊥

pub Yields-bind {ℓ κ} :
    {E : Type 0} {A : Type ℓ} {B : Type κ} (P : A → Type 0) (Q : B → Type 0) (m : Outcome E A)
    (k : A → Outcome E B)
    → Yields P m
    → ((a : A) → P a → Yields Q (k a))
    → Yields Q (m >>= k)
Yields-bind P Q (ok a) k h next = next a h
Yields-bind P Q (err e) k h next = absurd h
Yields-bind P Q panic k h next = absurd h

pub Yields-map {ℓ} :
    {E : Type 0} {A : Type ℓ} (P Q : A → Type 0) (m : Outcome E A)
    → Yields P m
    → ((a : A) → P a → Q a)
    → Yields Q m
Yields-map P Q (ok a) h f = f a h
Yields-map P Q (err e) h f = absurd h
Yields-map P Q panic h f = absurd h

-- If the call returns, its value satisfies `P`.
abbrev pub OnOk {ℓ} : {E : Type 0} {A : Type ℓ} → (A → Type 0) → Outcome E A → Type 0
OnOk P (ok a) = P a
OnOk P (err e) = Unit
OnOk P panic = Unit

pub OnOk-bind {ℓ κ} :
    {E : Type 0} {A : Type ℓ} {B : Type κ} (Q : B → Type 0) (m : Outcome E A) (k : A → Outcome E B)
    → ((a : A) → OnOk Q (k a))
    → OnOk Q (m >>= k)
OnOk-bind Q (ok a) k next = next a
OnOk-bind Q (err e) k next = tt
OnOk-bind Q panic k next = tt

pub OnOk-ok {ℓ} :
    {E : Type 0} {A : Type ℓ} (P : A → Type 0) (m : Outcome E A) (a : A) → OnOk P m → m ≡ ok a → P a
OnOk-ok P m a h e = rw e at h
