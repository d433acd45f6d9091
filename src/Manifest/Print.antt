-- ===== src/Manifest/Print.antt =====
-- daemoon_manifest_write of core/src/manifest.c.
use dae_moon.Prelude.{ℕ, Option, none, some, Bytes, text, ◌==◌, if◌then◌else◌}
use dae_moon.Errors.{Result, ◌>>=◌}
use dae_moon.Util.Strbuf.{Strbuf, init, add, add_json, add_uint, result}
use dae_moon.Util.Digest.{is_end}
use dae_moon.Backend.Names.{platform_name, save_type_name}
use dae_moon.Manifest.{Manifest, version_none}
use dae_moon.Manifest.Check.{validate}

unfoldable pub add_parent : Strbuf → ℕ → Strbuf
add_parent sb v = if v == version_none then add sb (text "null") else add_uint sb v

unfoldable pub add_name : Strbuf → Bytes → Strbuf
add_name sb name = if is_end name then sb else add_json (add sb (text "\",\"title_name\":\"")) name

unfoldable pub add_secure : Strbuf → Option ℕ → Strbuf
add_secure sb none = sb
add_secure sb (some v) = add_uint (add sb (text ",\"secure_value\":")) v

-- What is added to the builder.
unfoldable pub add_manifest : Strbuf → Manifest → Strbuf
add_manifest sb m =
    let sb = add sb (text "{\"format_version\":") in
    let sb = add_uint sb m.format_version in
    let sb = add sb (text ",\"platform\":\"") in
    let sb = add_json sb (platform_name m.platform) in
    let sb = add sb (text "\",\"title_id\":\"") in
    let sb = add_json sb m.title_id in
    let sb = add sb (text "\",\"save_type\":\"") in
    let sb = add_json sb (save_type_name m.save_type) in
    let sb = add sb (text "\",\"version\":") in
    let sb = add_uint sb m.version in
    let sb = add sb (text ",\"parent_version\":") in
    let sb = add_parent sb m.parent_version in
    let sb = add sb (text ",\"sha256\":\"") in
    let sb = add_json sb m.sha256 in
    let sb = add sb (text "\",\"size\":") in
    let sb = add_uint sb m.size in
    let sb = add sb (text ",\"device_label\":\"") in
    let sb = add_json sb m.device_label in
    let sb = add sb (text "\",\"created_at\":\"") in
    let sb = add_json sb m.created_at in
    let sb = add_name sb m.title_name in
    let sb = add sb (text "\"") in let sb = add_secure sb m.secure_value in add sb (text "}")

-- daemoon_manifest_write into a buffer of `cap` bytes.
unfoldable pub write : Manifest → ℕ → Result Bytes
write m cap = validate m >>= λ _. result (add_manifest (init cap) m)
