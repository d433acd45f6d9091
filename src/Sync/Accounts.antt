-- ===== src/Sync/Accounts.antt =====
-- daemoon_sync_title_with of core/src/sync.c: what its result and its counters say of what was done.
use dae_moon.Prelude.{◌≡◌, refl, inr, Bool, true, false}
use dae_moon.Errors.{Code, Result, ok, err, user_cancelled, version_conflict}
use dae_moon.Util.Json.{Tokenize}
use dae_moon.Backend.{Title, Env}
use dae_moon.Sync.Decide.{LocalState, RemoteMeta, Action, decide}
use dae_moon.Sync.Options.{
  Policy, Opts, Stats, Outcome, count_uploaded, count_downloaded, count_skipped, count_conflict,
  count_failed,
}
use dae_moon.Sync.Calls.{get_latest}
use dae_moon.Sync.Io.{History, ask}
use dae_moon.Sync.Run.{
  ask_conflict, choice_of, is_deferred, is_keep_local, settle, resolve_conflict, leave, run_nothing,
  ask_upload, after_upload, run_upload, count_unless_cancelled, after_download, run_download,
  after_conflict, run_conflict, run_action, survey, after_survey, sync_title_with,
}
use dae_moon.Sync.Trace.{
  Ensures, returns, calls, Ensures-weaken, Ensures-bind, Ensures-ask, Ensures-if, Ensures-attempted,
}
use dae_moon.Sync.Guard.{Allowed, IsSent, IsCommitted}
use dae_moon.Sync.Quiet.{Quiet, quiet_rules, check_not_running-Quiet, scan_local-Quiet}
use dae_moon.Sync.Restoring.{WhenOk}
use dae_moon.Sync.Transferring.{record_base-Quiet, do_upload_lem, do_download_lem}

-- The ways a run of one title ends, each with what has happened by then.
pub data Accounted (t : Title) (stats : Stats) (h : History) : Outcome → Type 0 where
  uploaded : IsSent h → Accounted t stats h (ok tt, count_uploaded stats)
  downloaded : IsCommitted t h → Accounted t stats h (ok tt, count_downloaded stats)
  skipped : Accounted t stats h (ok tt, count_skipped stats)
  deferred : Accounted t stats h (ok tt, count_conflict stats)
  declined : Accounted t stats h (err user_cancelled, count_skipped stats)
  unrecorded : (e : Code) → Accounted t stats h (err e, count_skipped stats)
  failed : (e : Code) → Accounted t stats h (err e, count_failed stats)
  stopped : (e : Code) → Accounted t stats h (err e, stats)

-- The ways the handling of a conflict ends, before a failure of it is counted.
data Resolved (t : Title) (stats : Stats) (h : History) : Outcome → Type 0 where
  sent : IsSent h → Resolved t stats h (ok tt, count_uploaded stats)
  fetched : IsCommitted t h → Resolved t stats h (ok tt, count_downloaded stats)
  put_off : Resolved t stats h (ok tt, count_conflict stats)
  broke_off : (e : Code) → Resolved t stats h (err e, stats)

-- The run returns an outcome, and that is accounted for.
abbrev pub Returns : {A : Type 0} → (A → History → Type 0) → Result A → History → Type 0
Returns P (ok a) h = P a h
Returns P (err e) h = ⊥

module _ (opts : Opts) (env : Env) (t : Title) (stats : Stats) where
  abbrev Tells : Result Outcome → History → Type 0
  Tells = Returns (λ o h. Accounted t stats h o)

  settled_upload :
      (r : Result (Unit {0})) (h : History)
      → WhenOk (λ x. IsSent) r h
      → Resolved t stats h (settle stats count_uploaded r)
  settled_upload (ok x) h q = sent q
  settled_upload (err e) h q = broke_off e

  settled_download :
      (r : Result (Unit {0})) (h : History)
      → WhenOk (λ x. IsCommitted t) r h
      → Resolved t stats h (settle stats count_downloaded r)
  settled_download (ok x) h q = fetched q
  settled_download (err e) h q = broke_off e

  choice_of_lem :
      (remote : RemoteMeta) (st : LocalState) (p : Policy) (h : History)
      → opts.conflict ≡ p
      → Ensures (Allowed opts) (Returns (λ c i. Unit {0})) h (choice_of env t remote st p)
  unfolding choice_of ask_conflict ask
  choice_of_lem remote st Policy.keep_local h e = returns _ tt
  choice_of_lem remote st Policy.keep_server h e = returns _ tt
  choice_of_lem remote st Policy.defer h e = returns _ tt
  choice_of_lem remote st Policy.ask_user h e = calls _ _ e (λ r. returns _ tt)

  resolve_conflict_lem :
      (remote : RemoteMeta) (st : LocalState) (h : History)
      → Ensures
          (Allowed opts)
          (Returns (λ o i. Resolved t stats i o))
          h
          (resolve_conflict env t remote st opts.conflict opts.restore_confirmed stats)
  unfolding resolve_conflict
  resolve_conflict_lem remote st h =
      Ensures-bind (choice_of_lem remote st opts.conflict h refl)
        (λ c i g q.
          Ensures-if (is_deferred c) (λ z. returns _ put_off)
            (λ z.
              Ensures-if (is_keep_local c)
                (λ y.
                  Ensures-attempted (do_upload_lem opts env t remote.latest_version st i)
                    (λ r j g' q'. returns _ (settled_upload r j q')))
                (λ y.
                  Ensures-attempted (do_download_lem opts env t remote st i)
                    (λ r j g' q'. returns _ (settled_download r j q')))))
        (λ e i g q. absurd q)

  run_nothing_lem :
      (st : LocalState) (remote : RemoteMeta) (h : History)
      → Ensures (Allowed opts) Tells h (run_nothing env t st remote stats)
  unfolding run_nothing leave
  run_nothing_lem st remote h =
      Ensures-if _
        (λ z.
          Ensures-attempted ((record_base-Quiet env t st remote.latest_version st.sha256).at opts h)
            (λ r i g q. returns _ (left r i)))
        (λ z. returns _ skipped)
    where
      left :
          (r : Result (Unit {0})) (i : History)
          → Accounted t stats i (settle (count_skipped stats) (λ s. s) r)
      left (ok x) i = skipped
      left (err e) i = unrecorded e

  ask_upload_lem :
      (agreed : Bool) (h : History)
      → opts.upload_confirmed ≡ agreed
      → Ensures (Allowed opts) (Returns (λ c i. Unit {0})) h (ask_upload t agreed)
  unfolding ask_upload ask
  ask_upload_lem true h e = returns _ tt
  ask_upload_lem false h e = calls _ _ (inr (refl, e)) (λ r. returns _ tt)

  directly :
      (r : Result Outcome) (i : History) → Returns (λ o j. Resolved t stats j o) r i → Tells r i
  directly (ok _) i (sent q) = uploaded q
  directly (ok _) i (fetched q) = downloaded q
  directly (ok _) i put_off = deferred
  directly (ok _) i (broke_off e) = stopped e
  directly (err e) i q = absurd q

  after_upload_lem :
      (st : LocalState) (r : Result (Unit {0})) (h : History)
      → WhenOk (λ x. IsSent) r h
      → Ensures (Allowed opts) Tells h (after_upload env t st opts stats r)
  unfolding after_upload
  after_upload_lem st (ok x) h q = returns _ (uploaded q)
  after_upload_lem st (err version_conflict) h q =
      Ensures-ask (get_latest t.platform t.id) tt (elim [
        | err e ↦ returns _ (stopped e)
        | ok now ↦ Ensures-weaken directly (resolve_conflict_lem now st _)
      ])
  after_upload_lem st (err e) h q = returns _ (failed e)

  run_upload_lem :
      (st : LocalState) (remote : RemoteMeta) (h : History)
      → Ensures (Allowed opts) Tells h (run_upload env t st remote opts stats)
  unfolding run_upload
  run_upload_lem st remote h =
      Ensures-bind (ask_upload_lem opts.upload_confirmed h refl)
        (λ agreed i g q.
          Ensures-if agreed
            (λ z.
              Ensures-attempted (do_upload_lem opts env t _ st i)
                (λ r j g' q'. after_upload_lem st r j q'))
            (λ z. returns _ declined))
        (λ e i g q. absurd q)

  unless_cancelled :
      (e : Code) (h : History) → Accounted t stats h (err e, count_unless_cancelled e stats)
  unless_cancelled user_cancelled h = stopped user_cancelled
  unless_cancelled e h = failed e

  run_download_lem :
      (st : LocalState) (remote : RemoteMeta) (h : History)
      → Ensures (Allowed opts) Tells h (run_download env t st remote opts stats)
  unfolding run_download
  run_download_lem st remote h =
      Ensures-attempted (do_download_lem opts env t remote st h)
        (λ r i g q. returns _ (after r i q))
    where
      after :
          (r : Result (Unit {0})) (i : History)
          → WhenOk (λ x. IsCommitted t) r i
          → Accounted t stats i (after_download stats r)
      after (ok x) i q = downloaded q
      after (err e) i q = unless_cancelled e i

  run_conflict_lem :
      (st : LocalState) (remote : RemoteMeta) (h : History)
      → Ensures (Allowed opts) Tells h (run_conflict env t st remote opts stats)
  unfolding run_conflict
  run_conflict_lem st remote h =
      Ensures-bind (resolve_conflict_lem remote st h) (λ o i g q. returns _ (counted o i q))
        (λ e i g q. absurd q)
    where
      counted :
          (o : Outcome) (i : History)
          → Resolved t stats i o
          → Accounted t stats i (after_conflict o)
      counted _ i (sent q) = uploaded q
      counted _ i (fetched q) = downloaded q
      counted _ i put_off = deferred
      counted _ i (broke_off e) = unless_cancelled e i

  run_action_lem :
      (st : LocalState) (remote : RemoteMeta) (a : Action) (h : History)
      → Ensures (Allowed opts) Tells h (run_action env t st remote opts stats a)
  unfolding run_action
  run_action_lem st remote Action.nothing h = run_nothing_lem st remote h
  run_action_lem st remote Action.upload h = run_upload_lem st remote h
  run_action_lem st remote Action.download h = run_download_lem st remote h
  run_action_lem st remote Action.conflict h = run_conflict_lem st remote h

  after_survey_lem :
      (r : Result (LocalState × RemoteMeta)) (h : History)
      → Ensures (Allowed opts) Tells h (after_survey env t opts stats r)
  unfolding after_survey
  after_survey_lem (ok (st, remote)) h = run_action_lem st remote (decide st remote) h
  after_survey_lem (err e) h = returns _ (stopped e)

  survey-Quiet : (jsmn : Tokenize) → Quiet (survey jsmn env t)
  unfolding survey
  survey-Quiet jsmn =
      search (quiet_rules, check_not_running-Quiet env, scan_local-Quiet env) depth 12

  pub sync_title_with_lem :
      (jsmn : Tokenize) (h : History)
      → Ensures (Allowed opts) Tells h (sync_title_with jsmn env t opts stats)
  unfolding sync_title_with
  sync_title_with_lem jsmn h =
      Ensures-attempted ((survey-Quiet jsmn).at opts h) (λ r i g q. after_survey_lem r i)
