-- ===== src/Ccr/Store/Outcome.antt =====
-- What holds of every run of code that uses a store, whatever the store answers.
use headroom_go.Common.{ℕ, List, ◌∷◌, Option, Bytes}
use headroom_go.Ccr.Store.{Prog, done, put, get, len, ◌>>=◌}

-- The entries put so far, the latest first.
abbrev pub Log : Type 0
Log = List (Bytes × Bytes)

-- P holds of the result and of the entries that were put, for all answers of the store.
abbrev pub Outcome {ℓ} : {A : Type 0} → (Log → A → Type ℓ) → Log → Prog A → Type ℓ
Outcome P log (done a) = P log a
Outcome P log (put h p m) = Outcome P ((h, p) ∷ log) m
Outcome P log (get h k) = (r : Option Bytes) → Outcome P log (k r)
Outcome P log (len k) = (n : ℕ) → Outcome P log (k n)

module _ {ℓ κ} {A B : Type 0} (P : Log → A → Type ℓ) (Q : Log → B → Type κ) where
  -- The rule of composition.
  pub Outcome-bind :
      (m : Prog A) (f : A → Prog B) (log : Log)
      → Outcome P log m
      → ((log' : Log) (a : A) → P log' a → Outcome Q log' (f a))
      → Outcome Q log (m >>= f)
  Outcome-bind (done a) f log h k = k log a h
  Outcome-bind (put x p m) f log h k = Outcome-bind m f ((x, p) ∷ log) h k
  Outcome-bind (get x c) f log h k = λ r. Outcome-bind (c r) f log (h r) k
  Outcome-bind (len c) f log h k = λ n. Outcome-bind (c n) f log (h n) k

module _ {ℓ κ} {A : Type 0} (P : Log → A → Type ℓ) (Q : Log → A → Type κ) where
  pub Outcome-weaken :
      (m : Prog A) (log : Log)
      → ((log' : Log) (a : A) → P log' a → Q log' a)
      → Outcome P log m
      → Outcome Q log m
  Outcome-weaken (done a) log f h = f log a h
  Outcome-weaken (put x p m) log f h = Outcome-weaken m ((x, p) ∷ log) f h
  Outcome-weaken (get x c) log f h = λ r. Outcome-weaken (c r) log f (h r)
  Outcome-weaken (len c) log f h = λ n. Outcome-weaken (c n) log f (h n)

Outcome-trivial : {A : Type 0} (log : Log) (m : Prog A) → Outcome {0} (λ log' a. Unit) log m
Outcome-trivial log (done a) = tt
Outcome-trivial log (put h p m) = Outcome-trivial ((h, p) ∷ log) m
Outcome-trivial log (get h k) = λ r. Outcome-trivial log (k r)
Outcome-trivial log (len k) = λ n. Outcome-trivial log (k n)

-- What holds after code, whatever it did and returned.
pub Outcome-then {ℓ} :
    {A B : Type 0} (Q : Log → B → Type ℓ) (m : Prog A) (f : A → Prog B) (log : Log)
    → ((log' : Log) (a : A) → Outcome Q log' (f a))
    → Outcome Q log (m >>= f)
Outcome-then Q m f log k =
    Outcome-bind (λ log' a. Unit {0}) Q m f log (Outcome-trivial log m) (λ log' a x. k log' a)
