-- ===== src/Ccr/Store.antt =====
-- internal/ccr/store.go: the Store interface, the code that uses one, and FromConfig.
pub mod Build
pub mod Outcome
use headroom_go.Common.{ℕ, List, [], ◌∷◌, Option, Bytes}

-- An implementation of the interface Store, over the states of its object. Get returns the new
-- state too, since an implementation may drop what has expired.
pub record StoreOps (S : Type 0) : Type 0 where
  pub put : S → Bytes → Bytes → S
  pub get : S → Bytes → Option Bytes × S
  pub len : S → ℕ

-- Code that is handed a Store: it puts, gets and asks for the length through the interface alone.
pub data Prog (A : Type 0) : Type 0 where
  done : A → Prog A
  put : Bytes → Bytes → Prog A → Prog A
  get : Bytes → (Option Bytes → Prog A) → Prog A
  len : (ℕ → Prog A) → Prog A

infixl 5 ◌>>=◌ ◌>>◌
abbrev pub ◌>>=◌ : {A B : Type 0} → Prog A → (A → Prog B) → Prog B
done a >>= f = f a
put h p m >>= f = put h p (m >>= f)
get h k >>= f = get h (λ r. k r >>= f)
len k >>= f = len (λ n. k n >>= f)

abbrev pub ◌>>◌ : {A B : Type 0} → Prog A → Prog B → Prog B
m >> n = m >>= λ _. n

abbrev pub store_put : Bytes → Bytes → Prog Unit
store_put hash payload = put hash payload (done tt)

abbrev pub store_get : Bytes → Prog (Option Bytes)
store_get hash = get hash done

-- The run of such code on a store.
unfoldable pub run : {S A : Type 0} → StoreOps S → Prog A → S → A × S
run ops (done a) s = (a, s)
run ops (put h p m) s = run ops m (ops.put s h p)
run ops (get h k) s = run ops (k (ops.get s h).0) (ops.get s h).1
run ops (len k) s = run ops (k (ops.len s)) s
