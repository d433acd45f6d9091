-- ===== src/Consoles/Unattended/Silent.antt =====
-- What a run that nobody watches does without asking, from platform/3ds/source/autosync_steps.c and
-- batch_steps.c.
use dae_moon.Prelude.{ℕ, zero, suc, ◌≡◌, ◌≤◌, refl, Bool, List, [], arith}
use dae_moon.Util.Json.{Tokenize}
use dae_moon.Backend.{Title, Env}
use dae_moon.Messages.{StrRef}
use dae_moon.Sync.Options.{Policy, Stats}
use dae_moon.Sync.Calls.{Answer, confirm, choose}
use dae_moon.Sync.Io.{event, Environment, run}
use dae_moon.Sync.Run.{sync_title_with}
use dae_moon.Sync.Trace.{Happened}
use dae_moon.Sync.Promise.{sync-asks_nothing}
use dae_moon.Consoles.Unattended.{autosync_opts, batch_policies, batch_policy}

defer≢ask_user : Policy.defer ≡ Policy.ask_user → ⊥
defer≢ask_user h = cc

-- A sync at startup asks nothing, whatever the surroundings answer.
autosync_opts-asks_nothing :
    (world : Environment) (jsmn : Tokenize) (env : Env) (t : Title) (stats : Stats)
    → let h = (run world (sync_title_with jsmn env t autosync_opts stats) []).1 in
      ((m : StrRef) (a : Bool) → ¬ (Happened (event (confirm m) a) h))
      × ((m : StrRef) (options : List StrRef) (a : Answer (choose m options))
          → ¬ (Happened (event (choose m options) a) h))
autosync_opts-asks_nothing world jsmn env t stats =
    sync-asks_nothing world jsmn env t autosync_opts stats refl refl defer≢ask_user

-- An index that is not on the list of policies asks about every conflict.
batch_policy-asks : (i : ℕ) → (batch_policies ≤ i) → batch_policy i ≡ Policy.ask_user
unfolding batch_policy
batch_policy-asks zero h = refl
batch_policy-asks (suc zero) h = absurd (omega arith)
batch_policy-asks (suc (suc zero)) h = absurd (omega arith)
batch_policy-asks (suc (suc (suc i))) h = ground arith
