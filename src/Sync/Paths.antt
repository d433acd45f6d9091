-- ===== src/Sync/Paths.antt =====
-- The names under work_dir: join_path, title_key, state_path and the leaf names of core/src/sync.c.
use dae_moon.Prelude.{ℕ, ◌+◌, Option, none, some, Bytes, text, take, ◌≡◌, arith}
use dae_moon.Errors.{Code, Result, err, buffer_too_small}
use dae_moon.Util.Strbuf.{Strbuf, init, add, addc, addn, result}
use dae_moon.Backend.{Platform, Env, or_empty}
use dae_moon.Backend.Names.{platform_name}
use dae_moon.Sync.Io.{Io, check, ◌>>=◌}

-- SYNC_PATH_MAX
abbrev pub sync_path_max : ℕ
sync_path_max = 512

abbrev pub title_id_max : ℕ
title_id_max = 33

abbrev add_part : Strbuf → Option Bytes → Strbuf
add_part sb none = sb
add_part sb (some s) = add (addc sb b'/') s

unfoldable pub join_path : Bytes → Option Bytes → Option Bytes → Result Bytes
join_path a b c = result (add_part (add_part (add (init sync_path_max) a) b) c)

-- <platform>_<title id>
unfoldable pub title_key : Platform → Bytes → Result Bytes
title_key platform title_id =
    result (add (addc (add (init (title_id_max + 16)) (platform_name platform)) b'_') title_id)

-- A path with a suffix, in a buffer of SYNC_PATH_MAX.
unfoldable pub with_suffix : ℕ → Bytes → Bytes → Result Bytes
with_suffix cap path suffix = result (add (add (init cap) path) suffix)

unfoldable pub state_path : Env → Platform → Bytes → Io Bytes
state_path env platform title_id = do
  key ← check (title_key platform title_id)
  leaf ← check (with_suffix (title_id_max + 24) key (text ".json"))
  check (join_path (or_empty env.work_dir) (some (text "state")) (some leaf))

-- The leaf of a backup: the key, twelve digits of the digest, and .zip.
unfoldable pub backup_leaf : Bytes → Bytes → Result Bytes
backup_leaf key hex =
    result (add (addn (addc (add (init (title_id_max + 48)) key) b'_') (take 12 hex)) (text ".zip"))

-- A name fails in one way: it is too long for its buffer.
result_failure : (sb : Strbuf) (e : Code) → result sb ≡ err e → e ≡ buffer_too_small
unfolding result
result_failure sb e h = ground arith

pub join_path_failure :
    (a : Bytes) (b c : Option Bytes) (e : Code) → join_path a b c ≡ err e → e ≡ buffer_too_small
unfolding join_path
join_path_failure a b c e h = result_failure _ e h

pub with_suffix_failure :
    (size : ℕ) (a b : Bytes) (e : Code) → with_suffix size a b ≡ err e → e ≡ buffer_too_small
unfolding with_suffix
with_suffix_failure size a b e h = result_failure _ e h

pub title_key_failure :
    (p : Platform) (id : Bytes) (e : Code) → title_key p id ≡ err e → e ≡ buffer_too_small
unfolding title_key
title_key_failure p id e h = result_failure _ e h

pub backup_leaf_failure :
    (key hex : Bytes) (e : Code) → backup_leaf key hex ≡ err e → e ≡ buffer_too_small
unfolding backup_leaf
backup_leaf_failure key hex e h = result_failure _ e h
