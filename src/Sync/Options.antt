-- ===== src/Sync/Options.antt =====
-- The options and the counters of core/include/daemoon/sync.h.
use dae_moon.Prelude.{ℕ, ◌+◌, ◌%◌, ◌^◌, Bool, false}
use dae_moon.Errors.{Result}

-- daemoon_conflict_policy_t
pub data Policy : Type 0 where
  ask_user keep_local keep_server defer : Policy

-- daemoon_sync_opts_t
pub record Opts : Type 0 where
  pub conflict : Policy
  pub upload_confirmed : Bool
  pub restore_confirmed : Bool

-- k_ask_everything, which a NULL pointer stands for
abbrev pub ask_everything : Opts
ask_everything = record {
  conflict = Policy.ask_user;
  upload_confirmed = false;
  restore_confirmed = false;
}

-- daemoon_sync_stats_t
pub record Stats : Type 0 where
  pub uploaded : ℕ
  pub downloaded : ℕ
  pub skipped : ℕ
  pub conflicts : ℕ
  pub failed : ℕ

-- What the code returns, and the counters as it leaves them.
abbrev pub Outcome : Type 0
Outcome = Result (Unit {0}) × Stats

abbrev pub count_uploaded : Stats → Stats
count_uploaded s = record s { uploaded = (s.uploaded + 1) % 2 ^ 32 }

abbrev pub count_downloaded : Stats → Stats
count_downloaded s = record s { downloaded = (s.downloaded + 1) % 2 ^ 32 }

abbrev pub count_skipped : Stats → Stats
count_skipped s = record s { skipped = (s.skipped + 1) % 2 ^ 32 }

abbrev pub count_conflict : Stats → Stats
count_conflict s = record s { conflicts = (s.conflicts + 1) % 2 ^ 32 }

abbrev pub count_failed : Stats → Stats
count_failed s = record s { failed = (s.failed + 1) % 2 ^ 32 }
