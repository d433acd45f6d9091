-- ===== src/Sync/Restoring.antt =====
-- restore_package of core/src/sync.c before it touches the save: the question, the backup and the
-- check of the package.
use dae_moon.Prelude.{◌≡◌, refl, ◌⊎◌, inl, inr, Bool, true, false, Bytes, if◌then◌else◌}
use dae_moon.Errors.{Result, ok, err, not_found, checksum_mismatch, invalid_manifest}
use dae_moon.Messages.{StrId}
use dae_moon.Backend.{Title, Env}
use dae_moon.Manifest.{Manifest}
use dae_moon.Sync.Calls.{Stream, read, read_manifest, verify, fs_open, stream_close, confirm}
use dae_moon.Sync.Io.{Io, ret, fail, History, event, ask, ◌>>=◌}
use dae_moon.Sync.Backup.{str_ref}
use dae_moon.Sync.Restore.{
  ask_restore, accept_backup, backup_first, checked_manifest, report_verdict, is_for,
  verify_package,
}
use dae_moon.Sync.Options.{Opts}
use dae_moon.Sync.Trace.{
  Ensures, returns, fails, Ensures-bind, Ensures-ask, Ensures-ok, Ensures-err, Ensures-if,
  Ensures-attempt, here, later, Happened, Grows, Grows-event,
}
use dae_moon.Sync.Guard.{Allowed, IsBackedUp, MetNotFound, IsAsked, IsVerified}
use dae_moon.Sync.Quiet.{Quiet, show_progress-Quiet, send_notice-Quiet}
use dae_moon.Sync.Backups.{Kept, backup_local_lem}

-- A condition on what is returned; a failure promises nothing.
abbrev pub WhenOk : {A : Type 0} → (A → History → Type 0) → Result A → History → Type 0
WhenOk P (ok a) h = P a h
WhenOk P (err e) h = Unit

module _ (opts : Opts) (env : Env) (t : Title) where
  -- A block whose first part makes no guarded call.
  pub after-Quiet :
      {A B : Type 0} {P : B → History → Type 0} {h : History} {m : Io A} {f : A → Io B}
      → Quiet m
      → ((a : A) (h' : History) → Grows h h' → Ensures (Allowed opts) (WhenOk P) h' (f a))
      → Ensures (Allowed opts) (WhenOk P) h (m >>= f)
  after-Quiet {h = h} q k = Ensures-bind (q.at opts h) (λ a h' g x. k a h' g) (λ e h' g x. tt)

  pub ask_restore_lem :
      (confirmed : Bool) (h : History)
      → opts.restore_confirmed ≡ confirmed
      → Ensures (Allowed opts) (WhenOk (λ x. IsAsked confirmed t)) h (ask_restore env t confirmed)
  unfolding ask_restore
  ask_restore_lem true h s = returns tt (inl refl)
  ask_restore_lem false h s =
      Ensures-ask (confirm (str_ref StrId.confirm_restore t.name)) (inl (refl, s))
        (elim [ true ↦ returns tt (inr here) | false ↦ fails _ tt ])

  accept_backup_lem :
      (r : Result Bytes) (h : History)
      → Kept t r h
      → Ensures
          (Allowed opts)
          (WhenOk (λ x i. IsBackedUp t i ⊎ MetNotFound i))
          h
          (accept_backup env t r)
  unfolding accept_backup
  accept_backup_lem (ok path) h q = returns tt (inl q)
  accept_backup_lem (err not_found) h q = returns tt (inr (q refl))
  accept_backup_lem (err e) h q = after-Quiet (send_notice-Quiet env _ _) (λ a i g. fails _ tt)

  abbrev HandsOver : Result (Result Bytes) → History → Type 0
  HandsOver (ok r) h = Kept t r h
  HandsOver (err e) h = ⊥

  pub backup_first_lem :
      (h : History)
      → Ensures
          (Allowed opts)
          (WhenOk (λ x i. IsBackedUp t i ⊎ MetNotFound i))
          h
          (backup_first env t)
  unfolding backup_first
  backup_first_lem h = after-Quiet (show_progress-Quiet env _) (λ a i g.
      Ensures-bind {Q = HandsOver} (Ensures-attempt (λ r j q. q) (backup_local_lem opts env t 0 i))
        (λ r j g' q. accept_backup_lem r j q) (λ e j g' q. absurd q))

  -- A manifest that was read from the package and agrees with the payload.
  abbrev Checked : Stream → Manifest → History → Type 0
  Checked pkg m h =
      Happened (event (read_manifest pkg) (ok m)) h × Happened (event (verify pkg m) (ok tt)) h

  abbrev CheckedIn : Stream → Result (Result Manifest) → History → Type 0
  CheckedIn pkg (ok (ok m)) h = Checked pkg m h
  CheckedIn pkg (ok (err e)) h = Unit
  CheckedIn pkg (err e) h = Unit

  checked_manifest_lem :
      (pkg : Stream) (h : History) → Ensures (Allowed opts) (CheckedIn pkg) h (checked_manifest pkg)
  unfolding checked_manifest
  checked_manifest_lem pkg h = Ensures-ask (read_manifest pkg) tt (elim [
    | err e ↦ returns _ tt
    | ok m ↦
        Ensures-ask (verify pkg m) tt
          (elim [ err e ↦ returns _ tt | ok x ↦ returns _ (later here, here) ])
  ])

  report_verdict_lem :
      (pkg : Stream) (r : Result Manifest) (h : History)
      → CheckedIn pkg (ok r) h
      → Ensures (Allowed opts) (WhenOk (Checked pkg)) h (report_verdict env t r)
  unfolding report_verdict
  report_verdict_lem pkg (ok m) h q = returns m q
  report_verdict_lem pkg (err checksum_mismatch) h q =
      after-Quiet (send_notice-Quiet env _ _) (λ a i g. fails _ tt)
  report_verdict_lem pkg (err e) h q = fails e tt

  still_checked :
      (pkg : Stream) (r : Result Manifest) {h i : History}
      → Grows h i
      → CheckedIn pkg (ok r) h
      → CheckedIn pkg (ok r) i
  still_checked pkg (ok m) g q = (g.keep _ q.0, g.keep _ q.1)
  still_checked pkg (err e) g q = tt

  opened_package_lem :
      (pkg : Stream) (h : History)
      → Ensures (Allowed opts) (WhenOk (IsVerified t)) h (
          checked_manifest pkg >>= λ verdict. ask (stream_close pkg) >>= λ _.
          report_verdict env t verdict >>= λ m.
          if (is_for m t) then (ret m) else (fail invalid_manifest))
  opened_package_lem pkg h =
      Ensures-bind (checked_manifest_lem pkg h)
        (λ r i g q. Ensures-ask (stream_close pkg) tt (λ x.
          Ensures-bind (report_verdict_lem pkg r _ (still_checked pkg r (Grows-event _ i) q))
            (λ m j g' q'.
              Ensures-if (is_for m t)
                (λ own. returns m (record { pkg = pkg; declared = q'.0; intact = q'.1; own = own }))
                (λ z. fails _ tt))
            (λ e j g' q'. tt)))
        (λ e i g q. tt)

  pub verify_package_lem :
      (path : Bytes) (h : History)
      → Ensures (Allowed opts) (WhenOk (IsVerified t)) h (verify_package env t path)
  unfolding verify_package
  verify_package_lem path h = after-Quiet (show_progress-Quiet env _) (λ a i g.
      Ensures-ask (fs_open path read) tt (elim [
        | err e ↦ Ensures-err _ e tt
        | ok pkg ↦ Ensures-ok _ pkg (opened_package_lem pkg _)
      ]))
