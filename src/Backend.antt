-- ===== src/Backend.antt =====
-- core/include/daemoon/backend.h and core/src/backend.c: the platform interfaces as data, the
-- spellings of the enumerations, and the check of an assembled environment.
pub mod Names
pub mod Streams
use dae_moon.Prelude.{
  ◌≡◌, arith, ℕ, Bool, true, false, ◌&&◌, ◌||◌, not, Option, none, some, List, [], ◌∷◌, Bytes, ltb,
  if◌then◌else◌,
}
use dae_moon.Errors.{Code, Result, ok, err, invalid_request}
pub use Names.{Platform, SaveType}

pub record Title : Type 0 where
  pub id : Bytes
  pub name : Bytes
  pub platform : Platform
  pub save_type : SaveType
  pub size_hint : ℕ
  pub has_save : Bool
  pub secure_value : Bool
  pub account_bound : Bool

-- The function pointers of daemoon_save_backend_t: which of them are not NULL.
pub record SaveBackend : Type 0 where
  pub list_titles : Bool
  pub open_save : Bool
  pub open_save_write : Bool
  pub list_entries : Bool
  pub open_file : Bool
  pub remove_all : Bool
  pub commit : Bool
  pub close_save : Bool
  pub is_title_running : Bool
  pub read_secure_value : Bool
  pub write_secure_value : Bool
  pub clear_secure_value : Bool

pub record FsBackend : Type 0 where
  pub fs_open : Bool
  pub remove : Bool
  pub rename : Bool
  pub mkdir_p : Bool
  pub exists : Bool

pub record UiBackend : Type 0 where
  pub confirm : Bool
  pub progress : Bool
  pub choose : Bool
  pub notify : Bool

pub record NetBackend : Type 0 where
  pub request : Bool

-- daemoon_env_t; `none` is a NULL pointer, and `scratch` holds the buffer's length.
pub record Env : Type 0 where
  pub save : Option SaveBackend
  pub net : Option NetBackend
  pub ui : Option UiBackend
  pub fs : Option FsBackend
  pub clock_iso8601 : Bool
  pub server_url : Option Bytes
  pub token : Option Bytes
  pub device_label : Option Bytes
  pub work_dir : Option Bytes
  pub scratch : Option ℕ

-- Whether a string pointer is NULL or points at the empty string.
unfoldable pub is_blank : Option Bytes → Bool
is_blank none = true
is_blank (some []) = true
is_blank (some (c ∷ s)) = false

unfoldable pub scratch_usable : Option ℕ → Bool
scratch_usable none = false
scratch_usable (some n) = not (ltb n 4096)

unfoldable pub save_usable : Option SaveBackend → Bool
save_usable none = false
save_usable (some s) =
    s.list_titles && s.open_save && s.open_save_write && s.list_entries && s.open_file
    && s.remove_all && s.commit && s.close_save

unfoldable pub fs_usable : Option FsBackend → Bool
fs_usable none = false
fs_usable (some f) = f.fs_open && f.rename && f.mkdir_p && f.remove && f.exists

unfoldable pub ui_usable : Option UiBackend → Bool
ui_usable none = false
ui_usable (some u) = u.confirm && u.choose

-- daemoon_env_validate: every refusal is the same code, so the order of the tests does not show.
unfoldable pub env_validate : Env → Result (Unit {0})
unfolding is_blank scratch_usable save_usable fs_usable ui_usable
env_validate env =
    if not (scratch_usable env.scratch)
    then err invalid_request
    else if not (save_usable env.save)
    then err invalid_request
    else if not (fs_usable env.fs)
    then err invalid_request
    else if not (ui_usable env.ui)
    then err invalid_request
    else if is_blank env.work_dir
    then err invalid_request
    else if is_blank env.device_label
    then err invalid_request
    else ok tt

-- The optional entry points, tested where they are used.
unfoldable pub can_ask_running : Env → Bool
can_ask_running env = elim env.save [ none ↦ false | some s ↦ s.is_title_running ]

unfoldable pub can_read_secure : Env → Bool
can_read_secure env = elim env.save [ none ↦ false | some s ↦ s.read_secure_value ]

unfoldable pub can_write_secure : Env → Bool
can_write_secure env = elim env.save [ none ↦ false | some s ↦ s.write_secure_value ]

unfoldable pub can_clear_secure : Env → Bool
can_clear_secure env = elim env.save [ none ↦ false | some s ↦ s.clear_secure_value ]

unfoldable pub can_request : Env → Bool
can_request env = elim env.net [ none ↦ false | some n ↦ n.request ]

unfoldable pub can_notify : Env → Bool
can_notify env = elim env.ui [ none ↦ false | some u ↦ u.notify ]

unfoldable pub can_progress : Env → Bool
can_progress env = elim env.ui [ none ↦ false | some u ↦ u.progress ]

-- A string pointer passed to the string builder, which ignores NULL.
unfoldable pub or_empty : Option Bytes → Bytes
or_empty none = []
or_empty (some s) = s

pub env_validate_failure : (env : Env) (e : Code) → env_validate env ≡ err e → e ≡ invalid_request
unfolding env_validate
env_validate_failure env e p = ground arith
