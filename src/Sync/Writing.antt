-- ===== src/Sync/Writing.antt =====
-- restore_package of core/src/sync.c, from the opening of the save to the end: the writing, the commit
-- and the value that binds the save to the console.
use dae_moon.Prelude.{ℕ, ◌≡◌, refl, subst, ◌∷◌, Option, none, some, Bytes}
use dae_moon.Errors.{Code, Result, ok, err, either}
use dae_moon.Messages.{StrId}
use dae_moon.Backend.{Title, Env, env_validate, can_write_secure, can_clear_secure}
use dae_moon.Manifest.{Manifest}
use dae_moon.Sync.Calls.{
  Call, Answer, Stream, Save, read, open_save_write, commit, close_save, write_secure_value,
  clear_secure_value, unpack, fs_open, stream_close,
}
use dae_moon.Sync.Io.{History, event, check, ◌>>=◌}
use dae_moon.Sync.Restore.{
  warn_secure, commit_save, close_written, write_save, warn_unless, restore_secure_value,
  restore_package,
}
use dae_moon.Sync.Options.{Opts}
use dae_moon.Sync.Trace.{
  Ensures, returns, fails, Ensures-bind, Ensures-ask, Ensures-ok, Ensures-err, Ensures-pure,
  Ensures-if, Ensures-later, here, later, Happened, Grows, Grows-event, Grows-trans,
}
use dae_moon.Sync.Guard.{
  Allowed, IsAsked-Grows, IsVerified, IsVerified-Grows, IsCommitted, IsCommitted-Grows, IsReady,
  IsReady-Grows, kept-Grows,
}
use dae_moon.Sync.Quiet.{
  Quiet, show_progress-Quiet, send_notice-Quiet, check_not_running-Quiet, quiet_rules,
}
use dae_moon.Sync.Restoring.{
  WhenOk, after-Quiet, ask_restore_lem, backup_first_lem, verify_package_lem,
}

module _ (opts : Opts) (env : Env) (t : Title) where
  -- What a commit or its failure leaves behind.
  abbrev Commits : Save → Result (Result (Unit {0})) → History → Type 0
  Commits save (ok (ok x)) h = Happened (event (commit save) (ok tt)) h
  Commits save (ok (err e)) h = Unit
  Commits save (err e) h = Unit

  commit_save_lem :
      (save : Save) (pkg : Stream) (h : History)
      → Happened (event (unpack pkg save) (ok tt)) h
      → Ensures (Allowed opts) (Commits save) h (commit_save env t save)
  unfolding commit_save
  commit_save_lem save pkg h u =
      Ensures-ask (commit save) (pkg, u)
        (elim [
          | ok x ↦ returns _ here
          | err e ↦
              Ensures-bind ((send_notice-Quiet env StrId.commit_failed t.name).at opts _)
                (λ a i g q. returns _ tt) (λ e' i g q. tt)
        ])

  close_written_lem :
      {P : History → Type 0} (save : Save) (r : Result (Unit {0})) (h : History)
      → (r ≡ ok tt → (i : History) → Grows h i → P i)
      → Ensures (Allowed opts) (WhenOk (λ x i. P i)) h (close_written save r)
  unfolding close_written check
  close_written_lem save (err e) h f = Ensures-ask (close_save save) tt (λ x. fails e tt)
  close_written_lem save (ok y) h f =
      Ensures-ask (close_save save) tt
        (elim [ err e ↦ fails e tt | ok x ↦ returns _ (f refl _ (Grows-event _ h)) ])

  unpacked_lem :
      (save : Save) (pkg : Stream) (r : Result (Unit {0})) (h : History)
      → Happened (event (open_save_write t) (ok save)) h
      → Happened (event (unpack pkg save) r) h
      → Ensures (Allowed opts) (WhenOk (λ x. IsCommitted t)) h (
          either r
            (λ e. close_written save (err e))
            (λ _. commit_save env t save >>= λ r'. close_written save r'))
  unpacked_lem save pkg (err e) h o u = close_written_lem save (err e) h (λ p. absurd (differ p))
    where
      differ : {e : Code} → ¬ (Path (Result (Unit {0})) (err e) (ok tt))
      differ p = cc
  unpacked_lem save pkg (ok x) h o u =
      Ensures-bind (commit_save_lem save pkg h u)
        (λ r i g q. close_written_lem save r i (λ p j g'. record {
          save = save;
          pkg = pkg;
          opened = g'.keep _ (g.keep _ o);
          unpacked = g'.keep _ (g.keep _ u);
          committed = g'.keep _ (subst (λ y. Commits save (ok y) i) p q);
        }))
        (λ e i g q. tt)

  pub write_save_lem :
      (path : Bytes) (h : History)
      → IsReady opts.restore_confirmed t h
      → Ensures (Allowed opts) (WhenOk (λ x. IsCommitted t)) h (write_save env t path)
  unfolding write_save
  write_save_lem path h ready = after-Quiet opts env t (show_progress-Quiet env _) (λ a i g.
      Ensures-ask (fs_open path read) tt (elim [
        | err e ↦ Ensures-err _ e tt
        | ok pkg ↦ Ensures-ok _ pkg (
            Ensures-ask (open_save_write t)
              (IsReady-Grows (Grows-event _ i) (IsReady-Grows g ready))
              (elim [
                | err e ↦ Ensures-ask (stream_close pkg) tt (λ x. fails e tt)
                | ok save ↦
                    Ensures-ask (unpack pkg save) (t, here)
                      (λ r.
                        Ensures-ask (stream_close pkg) tt
                          (λ x. unpacked_lem save pkg r _ (later (later here)) (later here)))
              ]))
      ]))

  -- Whatever a warning comes to, the commit has been made.
  IsCommitted-still :
      {c : Call} {a : Answer c} {h : History}
      → IsCommitted t h
      → (r : Result (Unit {0})) (i : History) → Grows (event c a ∷ h) i
      → Unit {0}
      → WhenOk (λ x. IsCommitted t) r i
  IsCommitted-still {h = h} done (ok x) i g q =
      IsCommitted-Grows (Grows-trans (Grows-event _ h) g) done
  IsCommitted-still done (err e) i g q = tt

  warn_secure-Quiet : Quiet (warn_secure env t)
  unfolding warn_secure
  warn_secure-Quiet = search (quiet_rules, send_notice-Quiet env)

  warn_unless-Quiet : (r : Result (Unit {0})) → Quiet (warn_unless env t r)
  unfolding warn_unless
  warn_unless-Quiet (ok x) = search quiet_rules
  warn_unless-Quiet (err e) = send_notice-Quiet env _ _

  pub restore_secure_value_lem :
      (m : Manifest) (v : Option ℕ) (h : History)
      → m.secure_value ≡ v
      → IsCommitted t h
      → IsVerified t m h
      → Ensures (Allowed opts) (WhenOk (λ x. IsCommitted t)) h (restore_secure_value env t v)
  unfolding restore_secure_value
  restore_secure_value_lem m (some v) h p done sure =
      Ensures-if (can_write_secure env)
        (λ z.
          Ensures-ask (write_secure_value t v) (done, m, sure, p)
            (λ r. Ensures-later ((warn_unless-Quiet r).at opts _) (IsCommitted-still done)))
        (λ z. returns tt done)
  restore_secure_value_lem m none h p done sure =
      Ensures-if (can_clear_secure env)
        (λ z.
          Ensures-ask (clear_secure_value t) (done, m, sure, p)
            (λ r. Ensures-later ((warn_unless-Quiet r).at opts _) (IsCommitted-still done)))
        (λ z. returns tt done)

  -- restore_package: each guarded call is made only where it may be, and success means that the save
  -- was written and committed.
  pub restore_package_lem :
      (path : Bytes) (h : History)
      → Ensures
          (Allowed opts)
          (WhenOk (λ x. IsCommitted t))
          h
          (restore_package env t path opts.restore_confirmed)
  unfolding restore_package
  restore_package_lem path h =
      Ensures-pure (env_validate env)
        (λ _ v. after-Quiet opts env t (check_not_running-Quiet env t) (λ _ h1 g1.
          after-Quiet opts env t (warn_secure-Quiet) (λ _ h2 g2.
            Ensures-bind (ask_restore_lem opts env t opts.restore_confirmed h2 refl)
              (λ _ h3 g3 asked.
                Ensures-bind (backup_first_lem opts env t h3)
                  (λ _ h4 g4 kept.
                    Ensures-bind (verify_package_lem opts env t path h4)
                      (λ m h5 g5 sure.
                        Ensures-bind
                          (write_save_lem path h5 (record {
                            asked =
                                IsAsked-Grows opts.restore_confirmed t g5
                                  (IsAsked-Grows opts.restore_confirmed t g4 asked);
                            kept = kept-Grows t g5 kept;
                            manifest = m;
                            checked = sure;
                          }))
                          (λ _ h6 g6 done.
                            restore_secure_value_lem m m.secure_value h6 refl done
                              (IsVerified-Grows g6 sure))
                          (λ e i g q. tt))
                      (λ e i g q. tt))
                  (λ e i g q. tt))
              (λ e i g q. tt))))
        (λ e p. tt)
