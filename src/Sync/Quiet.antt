-- ===== src/Sync/Quiet.antt =====
-- The parts of core/src/sync.c that make none of the guarded calls.
use dae_moon.Prelude.{ℕ, zero, suc, Bool, true, false, Option, Bytes, [], ◌∷◌, if◌then◌else◌}
use dae_moon.Errors.{Code, Result, ok, err, either, not_found}
use dae_moon.Messages.{StrId}
use dae_moon.Util.Json.{Tokenize}
use dae_moon.Backend.{Title, Env, Platform}
use dae_moon.Sync.Decide.{LocalState}
use dae_moon.Sync.Calls.{Call, Save, Stream}
use dae_moon.Sync.Io.{Io, ret, fail, ◌>>=◌, ask, check, attempt, History}
use dae_moon.Sync.Paths.{state_path}
use dae_moon.Sync.State.{read_walk, state_load, state_save, scan_save, scan_opened, scan_local}
use dae_moon.Sync.Backup.{
  send_notice, show_progress, check_not_running, copy_field, stamp, fill_created_at,
  recorded_secure_value, describe,
}
use dae_moon.Sync.Options.{Opts}
use dae_moon.Sync.Trace.{
  Ensures, returns, fails, calls, Ensures-bind, Ensures-attempt, Ensures-check,
}
use dae_moon.Sync.Guard.{Allowed, IsPlain, Allowed-IsPlain}

-- From any history, only calls that need nothing.
pub record Quiet {A : Type 0} (m : Io A) : Type 0 where
  pub at : (opts : Opts) (h : History) → Ensures (Allowed opts) (λ r h'. Unit) h m

pub Quiet-ret : {A : Type 0} (a : A) → Quiet (ret a)
Quiet-ret a = record { at = λ opts h. returns a tt }

pub Quiet-fail : {A : Type 0} (e : Code) → Quiet (let m : Io A = fail e in m)
Quiet-fail e = record { at = λ opts h. fails e tt }

pub Quiet-check : {A : Type 0} (r : Result A) → Quiet (check r)
Quiet-check r = record { at = λ opts h. Ensures-check r tt }

pub Quiet-ask : (c : Call) → IsPlain c → Quiet (ask c)
unfolding ask
Quiet-ask c p = record { at = λ opts h. calls c _ (Allowed-IsPlain opts c h p) (λ r. returns r tt) }

pub Quiet-bind :
    {A B : Type 0} (m : Io A) (f : A → Io B) → Quiet m → ((a : A) → Quiet (f a)) → Quiet (m >>= f)
Quiet-bind m f qm qf = record {
  at = λ opts h. Ensures-bind (qm.at opts h) (λ a h' g q. (qf a).at opts h') (λ e h' g q. tt);
}

pub Quiet-attempt : {A : Type 0} (m : Io A) → Quiet m → Quiet (attempt m)
Quiet-attempt m qm = record { at = λ opts h. Ensures-attempt (λ r h' q. tt) (qm.at opts h) }

pub Quiet-if : {A : Type 0} (b : Bool) (m n : Io A) → Quiet m → Quiet n → Quiet (if b then m else n)
Quiet-if true m n qm qn = qm
Quiet-if false m n qm qn = qn

pub Quiet-either :
    {A B : Type 0} (r : Result A) (f : Code → Io B) (g : A → Io B)
    → ((e : Code) → Quiet (f e))
    → ((a : A) → Quiet (g a))
    → Quiet (either r f g)
Quiet-either (ok a) f g qf qg = qg a
Quiet-either (err e) f g qf qg = qf e

pub ruleset quiet_rules = (
  tt, Quiet-ret, Quiet-fail, Quiet-check, Quiet-ask, Quiet-bind, Quiet-attempt, Quiet-if,
  Quiet-either,
)

module _ (env : Env) where
  pub send_notice-Quiet : (id : StrId) (arg : Bytes) → Quiet (send_notice env id arg)
  unfolding send_notice
  send_notice-Quiet id arg = search quiet_rules depth 9

  pub show_progress-Quiet : (id : StrId) → Quiet (show_progress env id)
  unfolding show_progress
  show_progress-Quiet id = search quiet_rules depth 9

  pub check_not_running-Quiet : (title : Title) → Quiet (check_not_running env title)
  unfolding check_not_running
  check_not_running-Quiet title = search (quiet_rules, send_notice-Quiet) depth 12

  state_path-Quiet : (p : Platform) (id : Bytes) → Quiet (state_path env p id)
  unfolding state_path
  state_path-Quiet p id = search quiet_rules depth 9

  read_walk-Quiet : (fuel : ℕ) (f : Stream) (so_far : Bytes) → Quiet (read_walk fuel f so_far)
  unfolding read_walk
  read_walk-Quiet zero f so_far = search quiet_rules
  read_walk-Quiet (suc fuel) f so_far = search (quiet_rules, read_walk-Quiet fuel) depth 12

  state_load-Quiet :
      (jsmn : Tokenize) (p : Platform) (id : Bytes) → Quiet (state_load jsmn env p id)
  unfolding state_load
  state_load-Quiet jsmn p id = search (quiet_rules, state_path-Quiet, read_walk-Quiet) depth 20

  pub state_save-Quiet :
      (p : Platform) (id : Bytes) (st : LocalState) → Quiet (state_save env p id st)
  unfolding state_save
  state_save-Quiet p id st = search (quiet_rules, state_path-Quiet) depth 30

  scan_opened-Quiet : (base : ℕ × Bytes) (r : Result Save) → Quiet (scan_opened base r)
  unfolding scan_opened scan_save
  scan_opened-Quiet base (ok save) = search quiet_rules depth 20
  scan_opened-Quiet base (err not_found) = search quiet_rules
  scan_opened-Quiet base (err _) = search quiet_rules

  pub scan_local-Quiet : (jsmn : Tokenize) (title : Title) → Quiet (scan_local jsmn env title)
  unfolding scan_local
  scan_local-Quiet jsmn title = search (quiet_rules, state_load-Quiet, scan_opened-Quiet) depth 9

  pub copy_field-Quiet : (room : ℕ) (s : Option Bytes) → Quiet (copy_field room s)
  unfolding copy_field
  copy_field-Quiet room s = search quiet_rules

  stamp-Quiet : (r : Result Bytes) → Quiet (stamp r)
  stamp-Quiet (err e) = search (quiet_rules, copy_field-Quiet)
  stamp-Quiet (ok []) = search (quiet_rules, copy_field-Quiet)
  stamp-Quiet (ok (c ∷ s)) = search quiet_rules

  fill_created_at-Quiet : Quiet (fill_created_at env)
  unfolding fill_created_at
  fill_created_at-Quiet = search (quiet_rules, copy_field-Quiet, stamp-Quiet) depth 9

  recorded_secure_value-Quiet : (title : Title) → Quiet (recorded_secure_value env title)
  unfolding recorded_secure_value
  recorded_secure_value-Quiet title = search quiet_rules depth 9

  describe-Quiet : (title : Title) (parent : ℕ) → Quiet (describe env title parent)
  unfolding describe
  describe-Quiet title parent =
      search (quiet_rules, copy_field-Quiet, fill_created_at-Quiet, recorded_secure_value-Quiet)
        depth 12
