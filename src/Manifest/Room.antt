-- ===== src/Manifest/Room.antt =====
-- The buffer of DAEMOON_MANIFEST_MAX_BYTES has room for every manifest that core/src/manifest.c
-- writes.
use dae_moon.Prelude.{
  ℕ, zero, suc, ◌+◌, ◌*◌, ◌/◌, ◌%◌, ◌≢◌, ◌≡◌, ◌≤◌, ◌<◌, inl, inr, refl, ◌∙◌, ap, List, [], ◌∷◌,
  Bytes, text, length, length-append, All, lt→ltb, ◌==◌, arith, Option, none, some, Bool-cases,
}
use dae_moon.Errors.{ok}
use dae_moon.Util.Strbuf.{digits_before, uint_text}
use dae_moon.Util.Strbuf.Escape.{escape_byte, escape}
use dae_moon.Backend.{Platform, SaveType}
use dae_moon.Backend.Names.{platform_name, save_type_name}
use dae_moon.Manifest.{Manifest}
use dae_moon.Manifest.Parse.{manifest_max_bytes}
use dae_moon.Manifest.Print.{write}
use dae_moon.Manifest.Text.{
  parent_text, name_text, secure_text, glue, pieces, manifest_text, write-manifest_text,
}
use dae_moon.Manifest.Valid.{IsValid, IsLowerHex, IsTitleIdChar, validate-IsValid}

length-digits_before : (i v : ℕ) (tail : Bytes) → length (digits_before i v tail) ≤ i + length tail
unfolding digits_before
length-digits_before zero v tail = omega arith
length-digits_before (suc i) v tail = elim (Bool-cases (v / 10 == 0)) [
  | inl e ↦ rw e (omega arith)
  | inr e ↦ rw e (omega (arith, length-digits_before i (v / 10) ((48 + v % 10) ∷ tail)))
]

length-uint_text : (v : ℕ) → length (uint_text v) ≤ 24
unfolding uint_text
length-uint_text v = omega (arith, length-digits_before 24 v [])

length-escape_byte : (c : ℕ) → length (escape_byte c) ≤ 6
unfolding escape_byte
length-escape_byte c = ground arith

length-escape : (s : Bytes) → length (escape s) ≤ 6 * length s
unfolding escape
length-escape [] = omega arith
length-escape (c ∷ s) =
    omega (arith, length-append (escape_byte c) (escape s), length-escape_byte c, length-escape s)

plain_byte : (c : ℕ) → 45 ≤ c → c ≢ 92 → escape_byte c ≡ c ∷ []
unfolding escape_byte
plain_byte c h n = ground arith

escape-digest : (s : Bytes) → All IsLowerHex s → escape s ≡ s
unfolding escape
escape-digest [] h = refl
escape-digest (c ∷ s) h =
    rw (plain_byte c (ground (arith, h.0)) (λ e. ground (arith, h.0)), escape-digest s h.1) refl

escape-title_id : (s : Bytes) → All IsTitleIdChar s → escape s ≡ s
unfolding escape
escape-title_id [] h = refl
escape-title_id (c ∷ s) h =
    rw (plain_byte c (ground (arith, h.0)) (λ e. ground (arith, h.0)), escape-title_id s h.1) refl

-- The bounds that the character arrays of daemoon_manifest_t put on its strings.
pub record Fits (m : Manifest) : Type 0 where
  pub label : length m.device_label < 65
  pub name : length m.title_name < 128
  pub created : length m.created_at < 32

length-platform_name : (p : Platform) → length (escape (platform_name p)) ≤ 16
unfolding platform_name escape escape_byte
length-platform_name Platform.unknown = omega arith
length-platform_name _ = omega arith

length-save_type_name : (t : SaveType) → length (escape (save_type_name t)) ≤ 16
unfolding save_type_name escape escape_byte
length-save_type_name SaveType.unknown = omega arith
length-save_type_name _ = omega arith

length-parent_text : (v : ℕ) → length (parent_text v) ≤ 24
unfolding parent_text
length-parent_text v = ground (arith, length-uint_text v)

length-name_text : (s : Bytes) → length (name_text s) ≤ 16 + 6 * length s
unfolding name_text
length-name_text s =
    ground (arith, length-append (text "\",\"title_name\":\"") (escape s), length-escape s)

length-secure_text : (v : Option ℕ) → length (secure_text v) ≤ 40
unfolding secure_text
length-secure_text none = omega arith
length-secure_text (some v) =
    omega (arith, length-append (text ",\"secure_value\":") (uint_text v), length-uint_text v)

abbrev total : List Bytes → ℕ
total [] = 0
total (s ∷ ss) = length s + total ss

length-glue : (ss : List Bytes) → length (glue ss) ≡ total ss
length-glue [] = refl
length-glue (s ∷ ss) = omega (arith, length-append s (glue ss), length-glue ss)

length-manifest_text :
    (m : Manifest) → IsValid m → Fits m → length (manifest_text m) < manifest_max_bytes
unfolding manifest_text pieces
length-manifest_text m v f = omega (
  arith,
  length-glue (pieces m),
  length-uint_text m.format_version,
  length-platform_name m.platform,
  ap length (escape-title_id m.title_id v.id_chars),
  v.id_length.1,
  length-save_type_name m.save_type,
  length-uint_text m.version,
  length-parent_text m.parent_version,
  ap length (escape-digest m.sha256 v.digest_chars),
  v.digest_length,
  length-uint_text m.size,
  length-escape m.device_label,
  f.label,
  length-escape m.created_at,
  f.created,
  length-name_text m.title_name,
  f.name,
  length-secure_text m.secure_value,
)

-- A valid manifest whose label, name and date are within their arrays is always written, whole, into
-- a buffer of the greatest size that a manifest may have.
pub write-Fits :
    (m : Manifest) → IsValid m → Fits m → write m manifest_max_bytes ≡ ok (manifest_text m)
write-Fits m v f =
    write-manifest_text m manifest_max_bytes
    ∙ rw
        (
          (validate-IsValid m).1 v,
          lt→ltb (length (manifest_text m)) manifest_max_bytes (length-manifest_text m v f),
        )
        refl
