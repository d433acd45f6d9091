-- ===== src/Sync/Backups.antt =====
-- daemoon_sync_backup_local of core/src/sync.c either leaves a backup of what is in the save, or says
-- why there is none.
use dae_moon.Prelude.{
  ℕ, ◌≡◌, ◌≢◌, refl, ap, subst, sym, ◌∙◌, ◌⊎◌, inl, inr, Bool, true, false, none, some, Bytes, text,
  [], ◌==◌, if◌then◌else◌,
}
use dae_moon.Errors.{
  Code, Result, ok, err, not_found, empty_save, invalid_request, buffer_too_small,
}
use dae_moon.Util.Copy.{strlcpy, strlcpy_failure}
use dae_moon.Backend.{Title, Env, env_validate, env_validate_failure, or_empty}
use dae_moon.Manifest.{version_none}
use dae_moon.Sync.Calls.{
  Call, Answer, Save, Payload, open_save, close_save, hash_save, fs_exists, mkdir_p,
}
use dae_moon.Sync.Io.{ret, fail, History, event, ask, check, ◌>>=◌}
use dae_moon.Sync.Paths.{
  join_path, join_path_failure, title_key_failure, backup_leaf_failure, title_key, backup_leaf,
}
use dae_moon.Sync.Backup.{backup_path, backup, backup_local, copy_field, pack_title_to}
use dae_moon.Sync.Options.{Opts}
use dae_moon.Sync.Trace.{
  Ensures, returns, fails, Ensures-bind, Ensures-ask, Ensures-ok, Ensures-err, Ensures-pure,
  Ensures-if, here, later, Happened,
}
use dae_moon.Sync.Guard.{Allowed, IsBackedUp}
use dae_moon.Sync.Keeping.{Excused, met, too_small, pack_title_to_lem}

Result-cases : {A : Type 0} (r : Result A) → ((a : A) × (r ≡ ok a)) ⊎ ((e : Code) × (r ≡ err e))
Result-cases (ok a) = inl (a, refl)
Result-cases (err e) = inr (e, refl)

other : (e c : Code) {h : History} → c ≢ not_found → e ≡ c → Excused e h
other e c differ p q = absurd (differ (sym p ∙ q))

backup_path_failure :
    (dir : Bytes) (t : Title) (hex : Bytes) (e : Code)
    → backup_path dir t hex ≡ err e
    → e ≡ buffer_too_small
unfolding backup_path
backup_path_failure dir t hex e p = elim (Result-cases (title_key t.platform t.id)) [
  | inl (key, k) ↦ elim (Result-cases (backup_leaf key hex)) [
    | inl (leaf, l) ↦ join_path_failure dir (some leaf) none e (rw (k, l) at p)
    | inr (e', l) ↦ (same (rw (k, l) at p) (backup_leaf_failure key hex e' l))
  ]
  | inr (e', k) ↦ (same (rw k at p) (title_key_failure t.platform t.id e' k))
]
  where
    same :
        {e' : Code}
        → Path (Result Bytes) (err e') (err e)
        → e' ≡ buffer_too_small
        → e ≡ buffer_too_small
    same x y = cc

answered :
    (c : Call) {r s : Answer c} {h : History}
    → r ≡ s
    → Happened (event c r) h
    → Happened (event c s) h
answered c {h = h} p m = subst (λ x. Happened (event c x) h) p m

-- What a backup is worth, by its result.
abbrev pub Kept : {A : Type 0} → Title → Result A → History → Type 0
Kept t (ok a) h = IsBackedUp t h
Kept t (err e) h = Excused e h

module _ (opts : Opts) where
  stored_lem :
      (env : Env) (t : Title) (save : Save) (p : Payload) (dir path : Bytes) (h : History)
      → Happened (event (open_save t) (ok save)) h
      → Happened (event (hash_save save) (ok p)) h
      → (p.count == 0) ≡ false
      → backup_path dir t p.sha256 ≡ ok path
      → (there : Bool) → (there ≡ true → Happened (event (fs_exists path) true) h)
      → Ensures
          (Allowed opts)
          (Kept t)
          h
          (if there then (ret path) else (pack_title_to env t version_none path >>= λ _. ret path))
  stored_lem env t save p dir path h o d f n true there = returns path (record {
    save = save;
    payload = p;
    dir = dir;
    path = path;
    opened = o;
    hashed = d;
    filled = f;
    named = n;
    stored = inl (there refl);
  })
  stored_lem env t save p dir path h o d f n false there =
      Ensures-bind (pack_title_to_lem opts env t version_none path h)
        (λ m i g q. returns path (record {
          save = save;
          payload = p;
          dir = dir;
          path = path;
          opened = g.keep _ o;
          hashed = g.keep _ d;
          filled = f;
          named = n;
          stored = inr q.1;
        }))
        (λ e i g q. q)

  opened_lem :
      (env : Env) (t : Title) (dir : Bytes) (h : History)
      → Ensures (Allowed opts) (Kept t) h (
          ask (open_save t) >>= λ opened. check opened >>= λ save.
          ask (hash_save save) >>= λ hashed. ask (close_save save) >>= λ _. check hashed >>= λ p.
          if (p.count == 0)
          then (fail empty_save)
          else (check (backup_path dir t p.sha256) >>= λ path. ask (fs_exists path) >>= λ there.
              if there
              then (ret path)
              else (pack_title_to env t version_none path >>= λ _. ret path)))
  opened_lem env t dir h = Ensures-ask (open_save t) tt (elim [
    | err e ↦ Ensures-err _ e (λ q. met (open_save t) (err e) (ap err q) here)
    | ok save ↦ Ensures-ok _ save (
        Ensures-ask (hash_save save) tt (λ hashed. Ensures-ask (close_save save) tt (λ x.
          Ensures-pure hashed
            (λ p d.
              Ensures-if (p.count == 0) (λ z. fails empty_save (other _ empty_save (λ y. cc) refl))
                (λ z.
                  Ensures-pure (backup_path dir t p.sha256)
                    (λ path n. Ensures-ask (fs_exists path) tt (λ there.
                      stored_lem env t save p dir path _ (later (later (later here)))
                        (answered (hash_save save) d (later (later here))) z n there
                        (λ y. answered (fs_exists path) y here)))
                    (λ e n. too_small e (backup_path_failure dir t p.sha256 e n))))
            (λ e d q. met (hash_save save) hashed (d ∙ ap err q) (later here)))))
  ])

  pub backup_lem :
      (env : Env) (t : Title) (h : History) → Ensures (Allowed opts) (Kept t) h (backup env t)
  unfolding backup
  backup_lem env t h =
      Ensures-pure (env_validate env)
        (λ _ v.
          Ensures-pure (join_path (or_empty env.work_dir) (some (text "backups")) none)
            (λ dir e. Ensures-ask (mkdir_p dir) tt (elim [
              | err e ↦ Ensures-err _ e (λ q. met (mkdir_p dir) (err e) (ap err q) here)
              | ok _ ↦ Ensures-ok _ tt (opened_lem env t dir _)
            ]))
            (λ e p. too_small e (join_path_failure _ _ _ e p)))
        (λ e p. other e invalid_request (λ x. cc) (env_validate_failure env e p))

  pub backup_local_lem :
      (env : Env) (t : Title) (room : ℕ) (h : History)
      → Ensures (Allowed opts) (Kept t) h (backup_local env t room)
  unfolding backup_local copy_field
  backup_local_lem env t room h =
      Ensures-bind (backup_lem env t h)
        (λ path i g q.
          Ensures-if (room == 0) (λ z. returns [] q)
            (λ z.
              Ensures-pure (strlcpy room (some path)).1 (λ a e. returns _ q)
                (λ e p. too_small e (strlcpy_failure room (some path) e p))))
        (λ e i g q. q)
