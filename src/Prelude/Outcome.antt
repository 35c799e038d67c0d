-- ===== src/Prelude/Outcome.antt =====
-- What a Go call ends in: a value, an error value, a run-time panic, or a wait for a lock that nobody
-- gives back.
use Prim.Native.Nat.{ℕ}
use mathlib.Core.Bool.{Bool, true, false}
use mathlib.Core.List.{List}
use native.Mathlib.Omega.{arith}
use mathlib.Core.Path.{◌≡◌, refl}
use mathlib.Core.Logic.{◌⊎◌, inl, inr}

-- The error values that the packages return.
pub data Fault : Type 0 where
  -- bigcache/queue/bytes_queue.go: the three refusals of `peek`, and the one of `Push`
  empty_queue index_not_positive index_out_of_range full_queue : Fault
  -- bigcache/entry_not_found_error.go, with the key that was asked for
  not_found : List ℕ → Fault
  -- bigcache/bigcache.go, and the two of bigcache/iterator.go
  not_power_of_two invalid_iterator_state cannot_retrieve_entry : Fault
  -- Cluster/clusteredBigCache.go: ErrNotStarted, ErrNotFound, ErrTimedOut, the missing address to join, and
  -- the port that cannot be listened on
  not_started data_not_found timed_out no_join_ip no_listener : Fault

pub data Outcome {ℓ} (A : Type ℓ) : Type ℓ where
  ok : A → Outcome A
  err : Fault → Outcome A
  panic : Outcome A
  blocked : Outcome A

infixl 5 ◌>>=◌ ◌>>◌
abbrev pub ◌>>=◌ {ℓ κ} : {A : Type ℓ} {B : Type κ} → Outcome A → (A → Outcome B) → Outcome B
ok a >>= f = f a
err e >>= f = err e
panic >>= f = panic
blocked >>= f = blocked

abbrev pub ◌>>◌ {ℓ} : {B : Type ℓ} → Outcome (Unit {0}) → Outcome B → Outcome B
m >> k = m >>= λ _. k

-- A run-time check: past it the condition holds.
abbrev pub check : Bool → Outcome (Unit {0})
check true = ok tt
check false = panic

-- `if !test { return e }`
abbrev pub require : Bool → Fault → Outcome (Unit {0})
require true e = ok tt
require false e = err e

-- A Go result pair `(A, error)`, of a call that keeps its changes when it answers an error.
pub data Reply {ℓ} (A : Type ℓ) : Type ℓ where
  value : A → Reply A
  failure : Fault → Reply A

pub Outcome-cases {ℓ} :
    {A : Type ℓ} (m : Outcome A)
    → ((a : A) × (m ≡ ok a)) ⊎ (((e : Fault) × (m ≡ err e)) ⊎ ((m ≡ panic) ⊎ (m ≡ blocked)))
Outcome-cases (ok a) = inl (a, refl)
Outcome-cases (err e) = inr (inl (e, refl))
Outcome-cases panic = inr (inr (inl refl))
Outcome-cases blocked = inr (inr (inr refl))

pub bind-ok {ℓ κ} :
    {A : Type ℓ} {B : Type κ} (m : Outcome A) (f : A → Outcome B) {b : B}
    → (m >>= f) ≡ ok b
    → (a : A) × (m ≡ ok a) × (f a ≡ ok b)
bind-ok (ok a) f e = (a, refl, e)
bind-ok (err x) f e = ground arith
bind-ok panic f e = ground arith
bind-ok blocked f e = ground arith

pub ok-injective {ℓ} : {A : Type ℓ} {a b : A} → ok a ≡ ok b → a ≡ b
ok-injective {a = a} {b = b} e = cc

pub bind_assoc {ℓ κ μ} :
    {A : Type ℓ} {B : Type κ} {C : Type μ} (m : Outcome A) (f : A → Outcome B) (g : B → Outcome C)
    → (m >>= λ a. f a >>= g) ≡ (m >>= f >>= g)
bind_assoc (ok a) f g = refl
bind_assoc (err e) f g = refl
bind_assoc panic f g = refl
bind_assoc blocked f g = refl

pub panic≢ok {ℓ} : {A : Type ℓ} {a : A} → ¬ (◌≡◌ {A = Outcome A} panic (ok a))
panic≢ok h = ground arith
