-- ===== src/Sync/Trace.antt =====
-- Proofs about every run of an `Io` tree, whatever the answers are: each call is made only where the
-- history so far allows it, and a condition holds at the end.
use dae_moon.Prelude.{◌≡◌, refl, Bool, true, false, [], ◌∷◌, if◌then◌else◌}
use dae_moon.Errors.{Code, Result, ok, err}
use dae_moon.Sync.Calls.{Call, Answer}
use dae_moon.Sync.Io.{
  Io, ret, fail, call, ◌>>=◌, ask, check, attempt, Event, History, event, Environment, run,
}

-- The call was made and answered so, at some time before.
pub data Happened (e : Event) : History → Type 0 where
  here : {h : History} → Happened e (e ∷ h)
  later : {x : Event} {h : History} → Happened e h → Happened e (x ∷ h)

-- The call was made and answered so, at some time before, and `P` held then.
pub data Then (e : Event) (P : History → Type 0) : History → Type 0 where
  now : {h : History} → P h → Then e P (e ∷ h)
  earlier : {x : Event} {h : History} → Then e P h → Then e P (x ∷ h)

-- A history, and one that goes on from it.
data Since (h : History) : History → Type 0 where
  same : Since h h
  further : {x : Event} {h' : History} → Since h h' → Since h (x ∷ h')

Since-trans : {h i j : History} → Since h i → Since i j → Since h j
Since-trans p same = p
Since-trans p (further q) = further (Since-trans p q)

-- A run adds to the history and takes nothing away.
pub record Grows (h h' : History) : Type 0 where
  pub keep : (e : Event) → Happened e h → Happened e h'
  since : Since h h'

pub Grows-refl : (h : History) → Grows h h
Grows-refl h = record { keep = λ e x. x; since = same }

pub Grows-trans : {h i j : History} → Grows h i → Grows i j → Grows h j
Grows-trans p q = record {
  keep = λ e x. q.keep e (p.keep e x);
  since = Since-trans p.since q.since;
}

pub Grows-event : (e : Event) (h : History) → Grows h (e ∷ h)
Grows-event e h = record { keep = λ x m. later m; since = further same }

Then-Since :
    {e : Event} {P : History → Type 0} {h h' : History} → Since h h' → Then e P h → Then e P h'
Then-Since same x = x
Then-Since (further g) x = earlier (Then-Since g x)

pub Then-Grows :
    {e : Event} {P : History → Type 0} {h h' : History} → Grows h h' → Then e P h → Then e P h'
Then-Grows g x = Then-Since g.since x

-- A condition on which calls may be made, by what has happened before.
abbrev pub Guard : Type 1
Guard = Call → History → Type 0

-- Every call in the history was allowed when it was made.
abbrev pub Respects : Guard → History → Type 0
Respects G [] = Unit
Respects G (e ∷ h) = G e.what h × Respects G h

-- `attempt` never fails, and hands over what the tree came to.
abbrev pub Attempted :
    {A : Type 0} → (Result A → History → Type 0) → Result (Result A) → History → Type 0
Attempted Q (ok r) h = Q r h
Attempted Q (err e) h = ⊥

-- Started at `h`, the tree makes allowed calls only, and ends with the condition `Q`.
pub data Ensures (G : Guard) {A : Type 0} (Q : Result A → History → Type 0)
    : History → Io A → Type 0 where
  returns : {h : History} (a : A) → Q (ok a) h → Ensures G Q h (ret a)
  fails : {h : History} (e : Code) → Q (err e) h → Ensures G Q h (fail e)
  calls :
      {h : History} (c : Call) (k : Answer c → Io A)
      → G c h
      → ((r : Answer c) → Ensures G Q (event c r ∷ h) (k r))
      → Ensures G Q h (call c k)

module _ {G : Guard} {A B : Type 0} {Q : Result A → History → Type 0}
    {R : Result B → History → Type 0} where
  -- The rest of a block may use what its first part ensures, and what happened before it.
  pub Ensures-bind :
      {h : History} {m : Io A} {f : A → Io B}
      → Ensures G Q h m
      → ((a : A) (h' : History) → Grows h h' → Q (ok a) h' → Ensures G R h' (f a))
      → ((e : Code) (h' : History) → Grows h h' → Q (err e) h' → R (err e) h')
      → Ensures G R h (m >>= f)
  unfolding ◌>>=◌
  Ensures-bind {h = h} (returns a q) good bad = good a h (Grows-refl h) q
  Ensures-bind {h = h} (fails e q) good bad = fails e (bad e h (Grows-refl h) q)
  Ensures-bind {h = h} (calls c k g rest) good bad = calls c _ g (λ r.
      Ensures-bind (rest r) (λ a h' p. good a h' (Grows-trans (Grows-event (event c r) h) p))
        (λ e h' p. bad e h' (Grows-trans (Grows-event (event c r) h) p)))

module _ {G : Guard} {A : Type 0} where
  pub Ensures-weaken :
      {Q R : Result A → History → Type 0} {h : History} {m : Io A}
      → ((r : Result A) (h' : History) → Q r h' → R r h')
      → Ensures G Q h m
      → Ensures G R h m
  Ensures-weaken f (returns {h = h} a q) = returns a (f (ok a) h q)
  Ensures-weaken f (fails {h = h} e q) = fails e (f (err e) h q)
  Ensures-weaken f (calls c k g rest) = calls c k g (λ r. Ensures-weaken f (rest r))

  -- As above, and the new condition may use that the history has grown.
  pub Ensures-later :
      {Q R : Result A → History → Type 0} {h : History} {m : Io A}
      → Ensures G Q h m
      → ((r : Result A) (h' : History) → Grows h h' → Q r h' → R r h')
      → Ensures G R h m
  Ensures-later (returns {h = h} a q) f = returns a (f (ok a) h (Grows-refl h) q)
  Ensures-later (fails {h = h} e q) f = fails e (f (err e) h (Grows-refl h) q)
  Ensures-later (calls {h = h} c k g rest) f =
      calls c k g
        (λ r. Ensures-later (rest r) (λ x h' p. f x h' (Grows-trans (Grows-event (event c r) h) p)))

  -- The condition `Q` of a tree becomes a condition on the result that `attempt` hands over.
  pub Ensures-attempt :
      {Q : Result A → History → Type 0} {R : Result (Result A) → History → Type 0} {h : History}
      {m : Io A}
      → ((r : Result A) (h' : History) → Q r h' → R (ok r) h')
      → Ensures G Q h m
      → Ensures G R h (attempt m)
  unfolding attempt
  Ensures-attempt f (returns {h = h} a q) = returns (ok a) (f (ok a) h q)
  Ensures-attempt f (fails {h = h} e q) = returns (err e) (f (err e) h q)
  Ensures-attempt f (calls c k g rest) = calls c _ g (λ r. Ensures-attempt f (rest r))

  pub Ensures-attempted :
      {B : Type 0} {Q : Result A → History → Type 0} {R : Result B → History → Type 0} {h : History}
      {m : Io A} {f : Result A → Io B}
      → Ensures G Q h m
      → ((r : Result A) (h' : History) → Grows h h' → Q r h' → Ensures G R h' (f r))
      → Ensures G R h (attempt m >>= f)
  Ensures-attempted {Q = Q} p k =
      Ensures-bind {Q = Attempted Q} (Ensures-attempt (λ r h' q. q) p) k (λ e h' g q. absurd q)

  pub Ensures-check :
      {Q : Result A → History → Type 0} {h : History} (r : Result A)
      → Q r h
      → Ensures G Q h (check r)
  unfolding check
  Ensures-check (ok a) q = returns a q
  Ensures-check (err e) q = fails e q

  -- What a guard and a condition at the end of a tree are worth: they hold of every run.
  pub Ensures-run :
      {Q : Result A → History → Type 0} {h : History} {m : Io A} (env : Environment)
      → Respects G h
      → Ensures G Q h m
      → Respects G (run env m h).1 × Q (run env m h).0 (run env m h).1
  unfolding run
  Ensures-run env s (returns a q) = (s, q)
  Ensures-run env s (fails e q) = (s, q)
  Ensures-run env s (calls {h = h} c k g rest) = Ensures-run env (g, s) (rest (env h c))

-- A call at the head of a block.
pub Ensures-ask :
    {G : Guard} {B : Type 0} {R : Result B → History → Type 0} {h : History} (c : Call)
    {f : Answer c → Io B}
    → G c h
    → ((r : Answer c) → Ensures G R (event c r ∷ h) (f r))
    → Ensures G R h (ask c >>= f)
unfolding ask ◌>>=◌
Ensures-ask c g rest = calls c _ g rest

module _ {G : Guard} {A B : Type 0} {R : Result B → History → Type 0} {h : History}
    (f : A → Io B) where
  pub Ensures-ok : (a : A) → Ensures G R h (f a) → Ensures G R h (check (ok a) >>= f)
  unfolding check ◌>>=◌
  Ensures-ok a x = x

  pub Ensures-err : (e : Code) → R (err e) h → Ensures G R h (check (err e) >>= f)
  unfolding check ◌>>=◌
  Ensures-err e q = fails e q

module _ {G : Guard} {A B : Type 0} {R : Result B → History → Type 0} {h : History}
    {f : A → Io B} where
  -- A pure result, checked.
  pub Ensures-pure :
      (r : Result A)
      → ((a : A) → r ≡ ok a → Ensures G R h (f a))
      → ((e : Code) → r ≡ err e → R (err e) h)
      → Ensures G R h (check r >>= f)
  unfolding check ◌>>=◌
  Ensures-pure (ok a) good bad = good a refl
  Ensures-pure (err e) good bad = fails e (bad e refl)

pub Ensures-if :
    {G : Guard} {B : Type 0} {R : Result B → History → Type 0} {h : History} (b : Bool) {m n : Io B}
    → (b ≡ true → Ensures G R h m)
    → (b ≡ false → Ensures G R h n)
    → Ensures G R h (if b then m else n)
Ensures-if true f g = f refl
Ensures-if false f g = g refl
