-- ===== src/Sync/Transferring.antt =====
-- do_upload and do_download of core/src/sync.c: an upload that succeeds has sent a package, and a
-- download that succeeds has committed one.
use dae_moon.Prelude.{ℕ, ◌∷◌, Bytes, text}
use dae_moon.Errors.{Result, ok, err, either, checksum_mismatch}
use dae_moon.Backend.{Title, Env}
use dae_moon.Manifest.{Manifest}
use dae_moon.Sync.Decide.{LocalState, RemoteMeta}
use dae_moon.Sync.Options.{Opts}
use dae_moon.Sync.Calls.{read, api_upload, fs_open, stream_close, rename, remove}
use dae_moon.Sync.Io.{fail, Event, History, ask, check, attempt, ◌>>=◌, ◌>>◌}
use dae_moon.Sync.Paths.{with_suffix, sync_path_max}
use dae_moon.Sync.Restore.{restore_package}
use dae_moon.Sync.Transfer.{
  staging_path, record_base, do_upload, fetch, staged_digest, refuse_mismatch, match_digest,
  do_download,
}
use dae_moon.Sync.Trace.{
  Ensures, fails, Ensures-bind, Ensures-ask, Ensures-ok, Ensures-err, Ensures-pure,
  Ensures-attempted, Ensures-later, here, later, Grows, Grows-event, Grows-trans,
}
use dae_moon.Sync.Guard.{Allowed, IsPacked, IsPacked-Grows, IsSent, IsCommitted, IsCommitted-Grows}
use dae_moon.Sync.Quiet.{
  Quiet, quiet_rules, show_progress-Quiet, send_notice-Quiet, copy_field-Quiet, state_save-Quiet,
}
use dae_moon.Sync.Keeping.{pack_title_to_lem}
use dae_moon.Sync.Restoring.{WhenOk, after-Quiet}
use dae_moon.Sync.Writing.{restore_package_lem}

module _ (env : Env) (t : Title) where
  staging_path-Quiet : Quiet (staging_path env t)
  unfolding staging_path
  staging_path-Quiet = search quiet_rules depth 20

  pub record_base-Quiet :
      (st : LocalState) (v : ℕ) (hex : Bytes) → Quiet (record_base env t st v hex)
  unfolding record_base
  record_base-Quiet st v hex = search (quiet_rules, copy_field-Quiet, state_save-Quiet env) depth 9

  fetch-Quiet : (v : ℕ) (tmp : Bytes) → Quiet (fetch t v tmp)
  unfolding fetch
  fetch-Quiet v tmp = search quiet_rules depth 20

  staged_digest-Quiet : (path : Bytes) → Quiet (staged_digest path)
  unfolding staged_digest
  staged_digest-Quiet path = search quiet_rules depth 20

  refuse_mismatch-Quiet : (path : Bytes) → Quiet (refuse_mismatch env t path)
  unfolding refuse_mismatch
  refuse_mismatch-Quiet path = search (quiet_rules, send_notice-Quiet env) depth 9

  match_digest-Quiet :
      (path hex : Bytes) (r : Result Manifest) → Quiet (match_digest env t path hex r)
  unfolding match_digest
  match_digest-Quiet path hex (ok m) = search (quiet_rules, refuse_mismatch-Quiet) depth 9
  match_digest-Quiet path hex (err checksum_mismatch) = refuse_mismatch-Quiet path
  match_digest-Quiet path hex (err e) = search quiet_rules depth 9

module _ (opts : Opts) (env : Env) (t : Title) where
  -- The record of the new base is the last step, and what holds before it still holds after.
  recorded_lem :
      {P : History → Type 0} {h : History}
      → ((i : History) → Grows h i → P i)
      → (st : LocalState) (v : ℕ) (hex : Bytes)
      → Ensures (Allowed opts) (WhenOk (λ x. P)) h (record_base env t st v hex)
  recorded_lem {P = P} {h = h} p st v hex =
      Ensures-later ((record_base-Quiet env t st v hex).at opts h) keep
    where
      keep : (r : Result (Unit {0})) (i : History) → Grows h i → Unit {0} → WhenOk (λ x. P) r i
      keep (ok x) i g q = p i g
      keep (err e) i g q = tt

  send_lem :
      (path : Bytes) (m : Manifest) (st : LocalState) (h : History)
      → IsPacked m h
      → Ensures (Allowed opts) (WhenOk (λ x. IsSent)) h (
          ask (fs_open path read) >>= λ opened.
          either opened
            (λ e. ask (remove path) >> fail e)
            (λ f. ask (api_upload m f f.size) >>= λ sent.
              ask (stream_close f)
              >> (ask (remove path)
                  >> (check sent >>= λ issued.
                      record_base env t st issued.latest_version m.sha256))))
  send_lem path m st h packed = Ensures-ask (fs_open path read) tt (elim [
    | err e ↦ Ensures-ask (remove path) tt (λ x. fails e tt)
    | ok f ↦ Ensures-ask (api_upload m f f.size) (IsPacked-Grows (Grows-event _ h) packed) (elim [
      | err e ↦
          Ensures-ask (stream_close f) tt
            (λ x. Ensures-ask (remove path) tt (λ y. Ensures-err _ e tt))
      | ok issued ↦ Ensures-ask (stream_close f) tt (λ x. Ensures-ask (remove path) tt (λ y.
          Ensures-ok _ issued (
            recorded_lem
              (λ i g. record {
                manifest = m;
                file = f;
                issued = issued;
                packed =
                    IsPacked-Grows
                      (Grows-trans (Grows-event _ _) (
                        Grows-trans (Grows-event _ _)
                          (Grows-trans (Grows-event _ _) (Grows-trans (Grows-event _ _) g))))
                      packed;
                sent = g.keep _ (later (later here));
              })
              st issued.latest_version m.sha256)))
    ])
  ])

  pub do_upload_lem :
      (parent : ℕ) (st : LocalState) (h : History)
      → Ensures (Allowed opts) (WhenOk (λ x. IsSent)) h (do_upload env t parent st)
  unfolding do_upload
  do_upload_lem parent st h = after-Quiet opts env t (staging_path-Quiet env t) (λ path h1 g1.
      after-Quiet opts env t (show_progress-Quiet env _) (λ a h2 g2.
        Ensures-bind (pack_title_to_lem opts env t parent path h2)
          (λ m h3 g3 done.
            after-Quiet opts env t (show_progress-Quiet env _)
              (λ a' h4 g4. send_lem path m st h4 (IsPacked-Grows g4 done.0)))
          (λ e i g q. tt)))

  install_lem :
      (path : Bytes) (v : ℕ) (hex : Bytes) (st : LocalState) (h : History)
      → Ensures (Allowed opts) (WhenOk (λ x. IsCommitted t)) h (
          attempt (restore_package env t path opts.restore_confirmed) >>= λ restored.
          ask (remove path) >>= λ _. check restored >>= λ _. record_base env t st v hex)
  install_lem path v hex st h =
      Ensures-attempted (restore_package_lem opts env t path h)
        (λ r i g q. Ensures-ask (remove path) tt (λ x. installed r i q _))
    where
      installed :
          (r : Result (Unit {0})) (i : History)
          → WhenOk (λ x. IsCommitted t) r i
          → (e : Event)
          → Ensures
              (Allowed opts)
              (WhenOk (λ x. IsCommitted t))
              (e ∷ i)
              (check r >>= λ _. record_base env t st v hex)
      installed (ok x) i q e =
          Ensures-ok _ x
            (recorded_lem (λ j g. IsCommitted-Grows (Grows-trans (Grows-event e i) g) q) st v hex)
      installed (err c) i q e = Ensures-err _ c tt

  pub do_download_lem :
      (remote : RemoteMeta) (st : LocalState) (h : History)
      → Ensures
          (Allowed opts)
          (WhenOk (λ x. IsCommitted t))
          h
          (do_download env t remote st opts.restore_confirmed)
  unfolding do_download
  do_download_lem remote st h = after-Quiet opts env t (staging_path-Quiet env t) (λ path h1 g1.
      Ensures-pure (with_suffix sync_path_max path (text ".part"))
        (λ tmp e. after-Quiet opts env t (show_progress-Quiet env _) (λ a h2 g2.
          after-Quiet opts env t (fetch-Quiet env t remote.latest_version tmp) (λ a' h3 g3.
            Ensures-ask (rename tmp path) tt (elim [
              | err e ↦ Ensures-ask (remove tmp) tt (λ x. fails e tt)
              | ok x ↦ after-Quiet opts env t (staged_digest-Quiet env t path) (λ told h4 g4.
                  after-Quiet opts env t (match_digest-Quiet env t path remote.sha256 told)
                    (λ y h5 g5. install_lem path remote.latest_version remote.sha256 st h5))
            ]))))
        (λ e p. tt))
