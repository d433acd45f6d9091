-- ===== src/Sync/Promise.antt =====
-- The entry points of core/src/sync.c, over every environment: whatever the backends, the archive, the
-- server and the user answer.
use dae_moon.Prelude.{
  ℕ, zero, suc, ◌≡◌, refl, sym, ◌∙◌, subst, List, [], ◌∷◌, Bool, true, false, Bytes, drop, ◌⊎◌, inl,
  inr,
}
use mathlib.Core.Bool.{false≢true}
use dae_moon.Errors.{Code, Result, ok, err, not_found}
use dae_moon.Util.Json.{Tokenize}
use dae_moon.Backend.{Title, Env}
use dae_moon.Messages.{StrRef}
use dae_moon.Sync.Options.{Policy, Opts, ask_everything, Stats, Outcome}
use dae_moon.Sync.Calls.{Call, Answer, open_save_write, confirm, choose}
use dae_moon.Sync.Io.{History, event, Environment, run}
use dae_moon.Sync.Backup.{backup_local}
use dae_moon.Sync.Restore.{sync_restore_package}
use dae_moon.Sync.Run.{sync_title_with}
use dae_moon.Sync.Trace.{Guard, Respects, Ensures-run, Happened, here, later}
use dae_moon.Sync.Guard.{Allowed, IsReady, IsBackedUp, IsCommitted, MetNotFound}
use dae_moon.Sync.Restoring.{WhenOk}
use dae_moon.Sync.Backups.{Kept, backup_local_lem}
use dae_moon.Sync.Writing.{restore_package_lem}
use dae_moon.Sync.Accounts.{Accounted, Returns, sync_title_with_lem}

-- The history is the newest first, so a tail of it is what had happened at some time.
Respects-drop : (G : Guard) (n : ℕ) (h : History) → Respects G h → Respects G (drop n h)
Respects-drop G zero h r = r
Respects-drop G (suc n) [] r = r
Respects-drop G (suc n) (x ∷ h) (g, r) = Respects-drop G n h r

at_its_time :
    (G : Guard) (h : History) (n : ℕ) (c : Call) (a : Answer c) (before : History)
    → Respects G h
    → drop n h ≡ event c a ∷ before
    → G c before
at_its_time G h n c a before r e = (subst (Respects G) e (Respects-drop G n h r)).0

-- No event of a history that respects a guard is of a call that the guard never allows.
never :
    (G : Guard) (c : Call)
    → ((h : History) → ¬ (G c h))
    → (a : Answer c) {h : History} → Happened (event c a) h
    → Respects G h
    → ⊥
never G c refused a here (g, r) = refused _ g
never G c refused a (later m) (g, r) = never G c refused a m r

module _ (world : Environment) (jsmn : Tokenize) (env : Env) (t : Title) (opts : Opts)
    (stats : Stats) where
  -- Every call that a sync of a title makes is allowed when it is made: a save is opened for writing only
  -- after the question about overwriting it was answered with yes, unless the caller had settled it,
  -- after a backup of it was made, unless an answer not_found was met before, and after a package of its
  -- title was read and verified; it is unpacked into only once opened, and committed only once unpacked;
  -- a secure value is written or cleared only after the commit and as the verified manifest says; only a
  -- manifest of a packed, non-empty payload is uploaded; and only a question that the caller has not
  -- settled is asked.
  pub sync_title_with-Respects :
      Respects (Allowed opts) (run world (sync_title_with jsmn env t opts stats) []).1
  sync_title_with-Respects = (Ensures-run world tt (sync_title_with_lem opts env t stats jsmn [])).0

  -- A sync of a title always comes to an outcome, and it is accounted for by what has happened.
  pub sync_title_with-Accounted :
      let out = run world (sync_title_with jsmn env t opts stats) [] in
      (o : Outcome) × (out.0 ≡ ok o) × Accounted t stats out.1 o
  sync_title_with-Accounted =
      told _ _ (Ensures-run world tt (sync_title_with_lem opts env t stats jsmn [])).1
    where
      told :
          (r : Result Outcome) (h : History)
          → Returns (λ o i. Accounted t stats i o) r h
          → (o : Outcome) × (r ≡ ok o) × Accounted t stats h o
      told (ok o) h q = (o, refl, q)
      told (err e) h q = absurd q

  -- When a sync opens a save for writing, of whatever title, the question about overwriting it has
  -- been answered or was settled by the caller, a backup of it has been made unless an answer
  -- not_found was met, and a package of that title has been verified.
  pub sync_open_save_write-IsReady :
      (n : ℕ) (t' : Title) (a : Answer (open_save_write t')) (before : History)
      → drop n (run world (sync_title_with jsmn env t opts stats) []).1
        ≡ event (open_save_write t') a ∷ before
      → IsReady opts.restore_confirmed t' before
  sync_open_save_write-IsReady n t' a before e =
      at_its_time (Allowed opts) _ n (open_save_write t') a before sync_title_with-Respects e

  -- Where the caller has settled both confirmations and the policy for conflicts, a sync asks nothing.
  pub sync-asks_nothing :
      opts.restore_confirmed ≡ true
      → opts.upload_confirmed ≡ true
      → (opts.conflict ≡ Policy.ask_user → ⊥)
      → let h = (run world (sync_title_with jsmn env t opts stats) []).1 in
        ((m : StrRef) (a : Bool) → ¬ (Happened (event (confirm m) a) h))
        × ((m : StrRef) (options : List StrRef) (a : Answer (choose m options))
            → ¬ (Happened (event (choose m options) a) h))
  sync-asks_nothing r u c = (
    λ m a x. never (Allowed opts) (confirm m) (λ h. settled) a x sync_title_with-Respects,
    λ m options a x. never (Allowed opts) (choose m options) (λ h. c) a x sync_title_with-Respects,
  )
    where
      settled :
          {A B : Type 0}
          → (A × (opts.restore_confirmed ≡ false)) ⊎ (B × (opts.upload_confirmed ≡ false))
          → ⊥
      settled (inl (a, e)) = false≢true (sym e ∙ r)
      settled (inr (b, e)) = false≢true (sym e ∙ u)

ok≢err : {A : Type 0} {a : A} {e : Code} → ¬ (Path (Result A) (ok a) (err e))
ok≢err p = cc

module _ (world : Environment) (env : Env) (t : Title) where
  -- A backup that reports success has opened the title's save, found it non-empty and taken its digest,
  -- and a package stands under the name made from that digest: it was there already, or the title's save
  -- was opened, a file was opened, the save was packed into that file with a payload that is not empty,
  -- the file was closed without a failure and renamed to that name, in this order. A backup that reports
  -- not_found has met that answer from the file system, the save backend or the packing.
  pub backup_local-Kept :
      (room : ℕ)
      → let out = run world (backup_local env t room) [] in
        ((path : Bytes) → out.0 ≡ ok path → IsBackedUp t out.1)
        × (out.0 ≡ err not_found → MetNotFound out.1)
  backup_local-Kept room =
      told _ _ (Ensures-run world tt (backup_local_lem ask_everything env t room [])).1
    where
      told :
          (r : Result Bytes) (h : History)
          → Kept t r h
          → ((path : Bytes) → r ≡ ok path → IsBackedUp t h) × (r ≡ err not_found → MetNotFound h)
      told (ok p) h q = (λ path e. q, λ e. absurd (ok≢err e))
      told (err c) h q = (λ path e. absurd (ok≢err (sym e)), λ e. q cc)

  -- The published restore reports success only after a package was unpacked into the title's save
  -- and committed. It opens a save for writing only after the user answered the question about
  -- overwriting it with yes, after a backup of it was made, unless an answer not_found was met before,
  -- and after a package of its title was read and verified; it unpacks only into a save so opened,
  -- commits it only once unpacked into, and writes or clears a secure value only after the commit and as
  -- the verified manifest says.
  pub sync_restore_package-IsCommitted :
      (path : Bytes)
      → let out = run world (sync_restore_package env t path) [] in
        (out.0 ≡ ok tt → IsCommitted t out.1) × Respects (Allowed ask_everything) out.1
  unfolding sync_restore_package
  sync_restore_package-IsCommitted path =
      let sure = Ensures-run world tt (restore_package_lem ask_everything env t path []) in
      (promised _ _ sure.1, sure.0)
    where
      promised :
          (r : Result (Unit {0})) (h : History)
          → WhenOk (λ x. IsCommitted t) r h
          → r ≡ ok tt
          → IsCommitted t h
      promised (ok x) h q e = q
      promised (err c) h q e = absurd (ok≢err (sym e))
