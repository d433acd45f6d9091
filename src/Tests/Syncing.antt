-- ===== src/Tests/Syncing.antt =====
-- The theorems about core/src/sync.c at one title.
use dae_moon.Prelude.{suc, ◌+◌, ◌≡◌, refl, List, [], Bool, true, Bytes, text}
use dae_moon.Errors.{ok, err, not_found}
use dae_moon.Messages.{StrRef}
use dae_moon.Sync.Decide.{LocalState, decide}
use dae_moon.Sync.Decide.Cases.{Decides, decide-Decides}
use dae_moon.Sync.Options.{Policy, Opts, ask_everything, Outcome}
use dae_moon.Sync.Calls.{Answer, Stream, confirm, choose}
use dae_moon.Sync.Io.{event, run}
use dae_moon.Sync.State.{read_walk, state_room}
use dae_moon.Sync.Reading.{read_walk_fuel}
use dae_moon.Sync.Run.{sync_title_with}
use dae_moon.Sync.Restore.{sync_restore_package}
use dae_moon.Sync.Backup.{backup_local}
use dae_moon.Sync.Trace.{Respects, Happened}
use dae_moon.Sync.Guard.{Allowed, IsBackedUp, IsCommitted, MetNotFound}
use dae_moon.Sync.Accounts.{Accounted}
use dae_moon.Sync.Promise.{
  sync_title_with-Respects, sync_title_with-Accounted, sync-asks_nothing, backup_local-Kept,
  sync_restore_package-IsCommitted,
}
use dae_moon.Tests.World.{game, console, digest, on_server, world, no_tokens, zero_stats}

-- A save that has changed since version 4.
abbrev changed : LocalState
changed = record {
  has_save = true;
  sha256 = digest;
  size = 10;
  base_version = 4;
  base_sha256 = text "x";
}

decide-Decides_example : Decides changed on_server (decide changed on_server)
decide-Decides_example = decide-Decides changed on_server

sync_title_with-Respects_example :
    Respects
      (Allowed ask_everything)
      (run world (sync_title_with no_tokens console game ask_everything zero_stats) []).1
sync_title_with-Respects_example =
    sync_title_with-Respects world no_tokens console game ask_everything zero_stats

sync_title_with-Accounted_example :
    let out = run world (sync_title_with no_tokens console game ask_everything zero_stats) [] in
    (o : Outcome) × (out.0 ≡ ok o) × Accounted game zero_stats out.1 o
sync_title_with-Accounted_example =
    sync_title_with-Accounted world no_tokens console game ask_everything zero_stats

-- A client without a user, which takes the server's save in a conflict.
abbrev unattended : Opts
unattended = record {
  conflict = Policy.keep_server;
  upload_confirmed = true;
  restore_confirmed = true;
}

abbrev keeps_server : Policy.keep_server ≡ Policy.ask_user → ⊥
keeps_server e = cc

sync-asks_nothing_example :
    let h = (run world (sync_title_with no_tokens console game unattended zero_stats) []).1 in
    ((m : StrRef) (a : Bool) → ¬ (Happened (event (confirm m) a) h))
    × ((m : StrRef) (options : List StrRef) (a : Answer (choose m options))
        → ¬ (Happened (event (choose m options) a) h))
sync-asks_nothing_example =
    sync-asks_nothing world no_tokens console game unattended zero_stats refl refl keeps_server

backup_local-Kept_example :
    let out = run world (backup_local console game 512) [] in
    ((path : Bytes) → out.0 ≡ ok path → IsBackedUp game out.1)
    × (out.0 ≡ err not_found → MetNotFound out.1)
backup_local-Kept_example = backup_local-Kept world console game 512

sync_restore_package-IsCommitted_example :
    let out = run world (sync_restore_package console game (text "/p.zip")) [] in
    (out.0 ≡ ok tt → IsCommitted game out.1) × Respects (Allowed ask_everything) out.1
sync_restore_package-IsCommitted_example =
    sync_restore_package-IsCommitted world console game (text "/p.zip")

abbrev state_file : Stream
state_file = record { handle = 1; size = 90 }

read_walk_fuel_example :
    read_walk (4 + suc state_room) state_file [] ≡ read_walk (suc state_room) state_file []
read_walk_fuel_example = read_walk_fuel 4 state_file
