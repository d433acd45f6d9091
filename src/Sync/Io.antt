-- ===== src/Sync/Io.antt =====
-- A run of the code as a tree: it returns, or fails with a code, or makes a call and goes on with
-- the answer. `do` propagates a failure, as DAEMOON_TRY does; `attempt` hands it to the code.
use dae_moon.Prelude.{List, ◌∷◌}
use dae_moon.Errors.{Code, Result, ok, err}
use dae_moon.Sync.Calls.{Call, Answer}

pub data Io (A : Type 0) : Type 0 where
  ret : A → Io A
  fail : Code → Io A
  call : (c : Call) → (Answer c → Io A) → Io A

infixl 5 ◌>>=◌ ◌>>◌
unfoldable pub ◌>>=◌ : {A B : Type 0} → Io A → (A → Io B) → Io B
ret a >>= f = f a
fail e >>= f = fail e
call c k >>= f = call c (λ r. k r >>= f)

abbrev pub ◌>>◌ : {A B : Type 0} → Io A → Io B → Io B
m >> k = m >>= λ _. k

unfoldable pub ask : (c : Call) → Io (Answer c)
ask c = call c (λ r. ret r)

unfoldable pub check : {A : Type 0} → Result A → Io A
check (ok a) = ret a
check (err e) = fail e

unfoldable pub attempt : {A : Type 0} → Io A → Io (Result A)
attempt (ret a) = ret (ok a)
attempt (fail e) = ret (err e)
attempt (call c k) = call c (λ r. attempt (k r))

-- One call and its answer.
pub record Event : Type 0 where
  pub what : Call
  pub answer : Answer what

-- What has happened, the newest first.
abbrev pub History : Type 0
History = List Event

abbrev pub event : (c : Call) → Answer c → Event
event c r = record { what = c; answer = r }

-- An environment answers each call by what has happened so far.
abbrev pub Environment : Type 0
Environment = History → (c : Call) → Answer c

unfoldable pub run : {A : Type 0} → Environment → Io A → History → Result A × History
run env (ret a) h = (ok a, h)
run env (fail e) h = (err e, h)
run env (call c k) h = let r = env h c in run env (k r) (event c r ∷ h)
