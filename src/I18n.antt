-- ===== src/I18n.antt =====
-- daemoon_fmt_bytes of core/src/i18n.c: a size in the largest unit that fits it.
pub mod Languages
pub mod Format
pub mod Codes
pub mod Pieces
use dae_moon.Prelude.{ℕ, zero, suc, ◌*◌, ◌/◌, ◌%◌, Bytes, text, ltb, leb, ◌&&◌, if◌then◌else◌}
use dae_moon.Util.Strbuf.{init, add, addc, add_uint}

abbrev unit_name : ℕ → Bytes
unit_name zero = text "B"
unit_name (suc zero) = text "KiB"
unit_name (suc (suc zero)) = text "MiB"
unit_name (suc (suc (suc u))) = text "GiB"

-- The loop, with `rounds` units above `u` left: the whole part, the tenths and the unit.
unfoldable pub scale : ℕ → ℕ → ℕ → ℕ → ℕ × ℕ × ℕ
scale zero whole frac u = (whole, frac, u)
scale (suc rounds) whole frac u =
    let next = scale rounds (whole / 1024) (whole % 1024 * 10 / 1024) (suc u) in
    if leb 1024 whole then next else (whole, frac, u)

unfoldable pub fmt_bytes : ℕ → ℕ → Bytes
unfolding scale init add addc add_uint
fmt_bytes cap bytes =
    let (whole, frac, u) = scale 3 bytes 0 0 in
    let sb = add_uint (init cap) whole in
    let with_tenths = if ltb 0 u && ltb whole 100 then add_uint (addc sb b'.') frac else sb in
    (add (addc with_tenths b' ') (unit_name u)).content
