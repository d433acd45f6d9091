-- ===== src/Sync/Run.antt =====
-- ask_conflict, resolve_conflict, daemoon_sync_title and daemoon_sync_title_with of
-- core/src/sync.c.
use dae_moon.Prelude.{
  ℕ, Bool, true, false, ◌&&◌, not, Option, none, some, [], ◌∷◌, ◌==◌, if◌then◌else◌,
}
use dae_moon.Errors.{Code, Result, ok, err, user_cancelled, version_conflict, either}
use dae_moon.Messages.{StrId}
use dae_moon.I18n.{fmt_bytes}
use dae_moon.Util.Json.{Tokenize}
use dae_moon.Util.Digest.{is_end}
use dae_moon.Backend.{Title, Env, env_validate, or_empty}
use dae_moon.Manifest.{version_none}
use dae_moon.Sync.Decide.{LocalState, RemoteMeta, Action, decide}
use dae_moon.Sync.Options.{
  Policy, Opts, ask_everything, Stats, Outcome, count_uploaded, count_downloaded, count_skipped,
  count_conflict, count_failed,
}
use dae_moon.Sync.Calls.{get_latest, confirm, choose}
use dae_moon.Sync.Io.{Io, ret, ask, check, attempt, ◌>>=◌, ◌>>◌}
use dae_moon.Sync.State.{scan_local}
use dae_moon.Sync.Backup.{str_ref, check_not_running}
use dae_moon.Sync.Transfer.{record_base, do_upload, do_download}

-- daemoon_conflict_choice_t: 0 is KEEP_LOCAL, 2 is DEFER and any other choice is KEEP_SERVER;
-- `none` is a negative answer.
abbrev conflict_defer : Option ℕ
conflict_defer = some 2

unfoldable pub ask_conflict : Env → Title → RemoteMeta → LocalState → Io (Option ℕ)
ask_conflict env title remote st =
    let local_size = fmt_bytes 24 st.size in
    let remote_size = fmt_bytes 24 remote.size in
    let origin = if is_end remote.device_label then remote.received_at else remote.device_label in
    ask (
      choose (str_ref StrId.conflict_explain title.name) (
        record {
          id = StrId.conflict_keep_local;
          args = local_size ∷ or_empty env.device_label ∷ [];
        }
        ∷ record { id = StrId.conflict_keep_server; args = remote_size ∷ origin ∷ [] }
        ∷ record { id = StrId.conflict_keep_both; args = [] }
        ∷ []))

-- The answer to a conflict, the policy's or the user's.
unfoldable pub choice_of : Env → Title → RemoteMeta → LocalState → Policy → Io (Option ℕ)
choice_of env title remote st Policy.keep_local = ret (some 0)
choice_of env title remote st Policy.keep_server = ret (some 1)
choice_of env title remote st Policy.defer = ret conflict_defer
choice_of env title remote st Policy.ask_user = ask_conflict env title remote st

unfoldable pub is_deferred : Option ℕ → Bool
is_deferred none = true
is_deferred (some c) = c == 2

unfoldable pub is_keep_local : Option ℕ → Bool
is_keep_local none = false
is_keep_local (some c) = c == 0

-- The counters after a transfer: `done` where it succeeded, untouched otherwise.
abbrev pub settle : Stats → (Stats → Stats) → Result (Unit {0}) → Outcome
settle stats done (ok _) = (ok tt, done stats)
settle stats done (err e) = (err e, stats)

unfoldable pub resolve_conflict :
    Env → Title → RemoteMeta → LocalState → Policy → Bool → Stats → Io Outcome
resolve_conflict env title remote st policy confirmed stats = do
  choice ← choice_of env title remote st policy
  if (is_deferred choice)
      then (ret (ok tt, count_conflict stats))
      else (if (is_keep_local choice)
          then (do
            r ← attempt (do_upload env title remote.latest_version st)
            ret (settle stats count_uploaded r))
          else (do
            r ← attempt (do_download env title remote st confirmed)
            ret (settle stats count_downloaded r)))

-- DAEMOON_TRY where the counters are already as they will be left.
unfoldable pub leave : Stats → Io (Unit {0}) → Io Outcome
leave stats m = do r ← attempt m; ret (settle stats (λ s. s) r)

-- DAEMOON_SYNC_NONE: record the version that the content already matches.
unfoldable pub run_nothing : Env → Title → LocalState → RemoteMeta → Stats → Io Outcome
run_nothing env title st remote stats =
    if (st.has_save && remote.exists && not (st.base_version == remote.latest_version))
    then (leave (count_skipped stats) (record_base env title st remote.latest_version st.sha256))
    else (ret (ok tt, count_skipped stats))

unfoldable pub ask_upload : Title → Bool → Io Bool
ask_upload title true = ret true
ask_upload title false = ask (confirm (str_ref StrId.confirm_upload title.name))

-- What follows the upload: a refused version is read again and handed to the user.
unfoldable pub after_upload :
    Env → Title → LocalState → Opts → Stats → Result (Unit {0}) → Io Outcome
after_upload env title st opts stats (ok _) = ret (ok tt, count_uploaded stats)
after_upload env title st opts stats (err version_conflict) = do
  told ← ask (get_latest title.platform title.id)
  either told (λ e. ret (err e, stats))
      (λ now. resolve_conflict env title now st opts.conflict opts.restore_confirmed stats)
after_upload env title st opts stats (err e) = ret (err e, count_failed stats)

unfoldable pub run_upload : Env → Title → LocalState → RemoteMeta → Opts → Stats → Io Outcome
run_upload env title st remote opts stats = do
  agreed ← ask_upload title opts.upload_confirmed
  if agreed
      then (do
        r ←
            attempt (
              do_upload env title (if remote.exists then remote.latest_version else version_none)
                st)
        after_upload env title st opts stats r)
      else (ret (err user_cancelled, count_skipped stats))

-- A cancelled run is no failure; every other one is counted.
abbrev pub count_unless_cancelled : Code → Stats → Stats
count_unless_cancelled user_cancelled stats = stats
count_unless_cancelled _ stats = count_failed stats

abbrev pub after_download : Stats → Result (Unit {0}) → Outcome
after_download stats (ok _) = (ok tt, count_downloaded stats)
after_download stats (err e) = (err e, count_unless_cancelled e stats)

unfoldable pub run_download : Env → Title → LocalState → RemoteMeta → Opts → Stats → Io Outcome
run_download env title st remote opts stats = do
  r ← attempt (do_download env title remote st opts.restore_confirmed)
  ret (after_download stats r)

abbrev pub after_conflict : Outcome → Outcome
after_conflict (ok _, stats) = (ok tt, stats)
after_conflict (err e, stats) = (err e, count_unless_cancelled e stats)

unfoldable pub run_conflict : Env → Title → LocalState → RemoteMeta → Opts → Stats → Io Outcome
run_conflict env title st remote opts stats = do
  outcome ← resolve_conflict env title remote st opts.conflict opts.restore_confirmed stats
  ret (after_conflict outcome)

unfoldable pub run_action :
    Env → Title → LocalState → RemoteMeta → Opts → Stats → Action → Io Outcome
run_action env title st remote opts stats Action.nothing = run_nothing env title st remote stats
run_action env title st remote opts stats Action.upload = run_upload env title st remote opts stats
run_action env title st remote opts stats Action.download =
    run_download env title st remote opts stats
run_action env title st remote opts stats Action.conflict =
    run_conflict env title st remote opts stats

-- The part before the decision: what both sides hold.
unfoldable pub survey : Tokenize → Env → Title → Io (LocalState × RemoteMeta)
survey jsmn env title = do
  check (env_validate env)
  check_not_running env title
  st ← scan_local jsmn env title
  told ← ask (get_latest title.platform title.id)
  remote ← check told
  ret (st, remote)

unfoldable pub after_survey :
    Env → Title → Opts → Stats → Result (LocalState × RemoteMeta) → Io Outcome
after_survey env title opts stats (err e) = ret (err e, stats)
after_survey env title opts stats (ok (st, remote)) =
    run_action env title st remote opts stats (decide st remote)

-- daemoon_sync_title_with
unfoldable pub sync_title_with : Tokenize → Env → Title → Opts → Stats → Io Outcome
sync_title_with jsmn env title opts stats = do
  seen ← attempt (survey jsmn env title)
  after_survey env title opts stats seen

-- daemoon_sync_title
unfoldable pub sync_title : Tokenize → Env → Title → Stats → Io Outcome
sync_title jsmn env title stats = sync_title_with jsmn env title ask_everything stats
