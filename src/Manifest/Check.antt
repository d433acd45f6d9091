-- ===== src/Manifest/Check.antt =====
-- daemoon_manifest_validate of core/src/manifest.c, and the tests it makes.
use dae_moon.Prelude.{
  ℕ, zero, suc, Bool, true, false, ◌&&◌, ◌||◌, not, [], ◌∷◌, Bytes, bytes_eq, length, ltb, leb,
  ◌==◌, if◌then◌else◌,
}
use dae_moon.Errors.{Result, ok, err, invalid_manifest}
use dae_moon.Util.Digest.{is_end}
use dae_moon.Util.Utf8.{valid}
use dae_moon.Backend.{Platform, SaveType}
use dae_moon.Manifest.{Manifest, manifest_format_version, version_none, timestamp_none}

-- daemoon_manifest_has_date, of a date that is not NULL
unfoldable pub has_date : Bytes → Bool
has_date created_at = not (is_end created_at) && not (bytes_eq created_at timestamp_none)

unfoldable pub is_lower_hex : ℕ → Bool
is_lower_hex c = (leb b'0' c && leb c b'9') || (leb b'a' c && leb c b'f')

-- The loop of is_lower_hex64 with `n` places to go; a string that has ended is at its NUL.
unfoldable pub lower_hex_walk : ℕ → Bytes → Bool
lower_hex_walk zero s = is_end s
lower_hex_walk (suc n) [] = false
lower_hex_walk (suc n) (c ∷ s) =
    let rest = lower_hex_walk n s in if not (is_lower_hex c) then false else rest

unfoldable pub is_lower_hex64 : Bytes → Bool
is_lower_hex64 s = lower_hex_walk 64 s

unfoldable pub is_title_id_char : ℕ → Bool
is_title_id_char c =
    (leb b'0' c && leb c b'9') || (leb b'A' c && leb c b'Z') || c == b'_' || c == b'-'

unfoldable pub title_id_walk : Bytes → Bool
title_id_walk [] = true
title_id_walk (c ∷ s) =
    let rest = title_id_walk s in if not (is_title_id_char c) then false else rest

unfoldable pub is_valid_title_id : Bytes → Bool
is_valid_title_id s = if ltb (length s) 4 || ltb 32 (length s) then false else title_id_walk s

unfoldable pub is_unknown_platform : Platform → Bool
is_unknown_platform Platform.unknown = true
is_unknown_platform _ = false

unfoldable pub is_unknown_save_type : SaveType → Bool
is_unknown_save_type SaveType.unknown = true
is_unknown_save_type _ = false

-- daemoon_manifest_validate
unfoldable pub validate : Manifest → Result (Unit {0})
validate m =
    if not (m.format_version == manifest_format_version)
    then err invalid_manifest
    else if is_unknown_platform m.platform || is_unknown_save_type m.save_type
    then err invalid_manifest
    else if not (is_valid_title_id m.title_id)
    then err invalid_manifest
    else if not (is_lower_hex64 m.sha256)
    then err invalid_manifest
    else if is_end m.device_label || not (valid m.device_label)
    then err invalid_manifest
    else if not (m.version == version_none) && leb m.version m.parent_version
    then err invalid_manifest
    else ok tt
