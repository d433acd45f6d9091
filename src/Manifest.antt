-- ===== src/Manifest.antt =====
-- core/include/daemoon/manifest.h and core/src/manifest.c: the record at the root of a package.
pub mod Check
pub mod Parse
pub mod Print
pub mod Valid
pub mod Text
pub mod Read
pub mod Room
use dae_moon.Prelude.{ℕ, Bytes, [], text, Option, none}
use dae_moon.Backend.{Platform, SaveType}

-- `secure_value` is none where has_secure_value is 0.
pub record Manifest : Type 0 where
  pub format_version : ℕ
  pub platform : Platform
  pub title_id : Bytes
  pub save_type : SaveType
  pub version : ℕ
  pub parent_version : ℕ
  pub sha256 : Bytes
  pub size : ℕ
  pub device_label : Bytes
  pub title_name : Bytes
  pub secure_value : Option ℕ
  pub created_at : Bytes

abbrev pub manifest_format_version : ℕ
manifest_format_version = 1

-- DAEMOON_VERSION_NONE
abbrev pub version_none : ℕ
version_none = 0

abbrev pub timestamp_none : Bytes
timestamp_none = text "1970-01-01T00:00:00Z"

-- daemoon_manifest_init
unfoldable pub init : Manifest
init = record {
  format_version = manifest_format_version;
  platform = Platform.unknown;
  title_id = [];
  save_type = SaveType.unknown;
  version = version_none;
  parent_version = version_none;
  sha256 = [];
  size = 0;
  device_label = [];
  title_name = [];
  secure_value = none;
  created_at = [];
}
