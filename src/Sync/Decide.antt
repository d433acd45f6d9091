-- ===== src/Sync/Decide.antt =====
-- daemoon_sync_local_dirty and daemoon_sync_decide of core/src/sync.c, and daemoon_remote_meta_t of
-- core/include/daemoon/api.h: the decision about one title, which looks at no clock.
pub mod Cases
use dae_moon.Prelude.{ℕ, Bool, true, false, not, ◌||◌, Bytes, ltb, ◌==◌, if◌then◌else◌}
use dae_moon.Util.Digest.{hex_equal, is_end}
use dae_moon.Manifest.{version_none}

-- daemoon_local_state_t
pub record LocalState : Type 0 where
  pub has_save : Bool
  pub sha256 : Bytes
  pub size : ℕ
  pub base_version : ℕ
  pub base_sha256 : Bytes

-- daemoon_remote_meta_t
pub record RemoteMeta : Type 0 where
  pub exists : Bool
  pub latest_version : ℕ
  pub parent_version : ℕ
  pub sha256 : Bytes
  pub size : ℕ
  pub device_label : Bytes
  pub received_at : Bytes

pub data Action : Type 0 where
  nothing upload download conflict : Action

unfoldable pub local_dirty : LocalState → Bool
local_dirty local =
    if not local.has_save
    then false
    else if local.base_version == version_none || is_end local.base_sha256
    then true
    else not (hex_equal local.sha256 local.base_sha256)

unfoldable pub decide : LocalState → RemoteMeta → Action
decide local remote =
    if not local.has_save
    then (if remote.exists then Action.download else Action.nothing)
    else if not remote.exists
    then Action.upload
    else if hex_equal local.sha256 remote.sha256
    then Action.nothing
    else (let dirty = local_dirty local in
        if local.base_version == remote.latest_version
        then (if dirty then Action.upload else Action.conflict)
        else if ltb local.base_version remote.latest_version
        then (if dirty then Action.conflict else Action.download)
        else Action.conflict)
