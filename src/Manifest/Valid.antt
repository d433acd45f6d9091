-- ===== src/Manifest/Valid.antt =====
-- What daemoon_manifest_validate of core/src/manifest.c accepts.
use dae_moon.Prelude.{
  ℕ, zero, suc, ◌≡◌, ◌≢◌, ◌↔◌, ◌≤◌, ◌<◌, ◌⊎◌, refl, sym, true, false, ◌&&◌, not, [], ◌∷◌, Bytes,
  length, leb, ◌==◌, ==→eq, eq→==, subst, arith, All,
}
use mathlib.Core.Bool.{false≢true}
use dae_moon.Errors.{ok}
use dae_moon.Util.Digest.{is_end}
use dae_moon.Util.Utf8.{valid}
use dae_moon.Backend.{Platform, SaveType}
use dae_moon.Manifest.{Manifest, manifest_format_version, version_none}
use dae_moon.Manifest.Check.{
  is_lower_hex, lower_hex_walk, is_lower_hex64, is_title_id_char, title_id_walk, is_valid_title_id,
  is_unknown_platform, is_unknown_save_type, validate,
}

-- A lower case hexadecimal digit, and a character of a title id.
abbrev pub IsLowerHex : ℕ → Type 0
IsLowerHex c = ((48 ≤ c) × (c ≤ 57)) ⊎ ((97 ≤ c) × (c ≤ 102))

abbrev pub IsTitleIdChar : ℕ → Type 0
IsTitleIdChar c = ((48 ≤ c) × (c ≤ 57)) ⊎ ((65 ≤ c) × (c ≤ 90)) ⊎ (c ≡ 95) ⊎ (c ≡ 45)

-- What a package has to say of itself to be read at all.
pub record IsValid (m : Manifest) : Type 0 where
  pub format : m.format_version ≡ 1
  pub platform_known : m.platform ≢ Platform.unknown
  pub save_type_known : m.save_type ≢ SaveType.unknown
  pub id_length : (4 ≤ length m.title_id) × (length m.title_id ≤ 32)
  pub id_chars : All IsTitleIdChar m.title_id
  pub digest_length : length m.sha256 ≡ 64
  pub digest_chars : All IsLowerHex m.sha256
  pub labelled : m.device_label ≢ []
  pub label_text : valid m.device_label ≡ true
  pub newer : (m.version ≡ 0) ⊎ (m.parent_version < m.version)

lower_hex_walk_sound :
    (n : ℕ) (s : Bytes) → lower_hex_walk n s ≡ true → (length s ≡ n) × All IsLowerHex s
unfolding lower_hex_walk is_lower_hex is_end
lower_hex_walk_sound zero [] h = (refl, tt)
lower_hex_walk_sound zero (c ∷ s) h = absurd (false≢true h)
lower_hex_walk_sound (suc n) [] h = absurd (false≢true h)
lower_hex_walk_sound (suc n) (c ∷ s) h = ground (arith, lower_hex_walk_sound n s)

title_id_walk_sound : (s : Bytes) → title_id_walk s ≡ true → All IsTitleIdChar s
unfolding title_id_walk is_title_id_char
title_id_walk_sound [] h = tt
title_id_walk_sound (c ∷ s) h = ground (arith, title_id_walk_sound s)

lower_hex_walk_complete : (s : Bytes) → All IsLowerHex s → lower_hex_walk (length s) s ≡ true
unfolding lower_hex_walk is_lower_hex is_end
lower_hex_walk_complete [] h = refl
lower_hex_walk_complete (c ∷ s) h = ground (arith, lower_hex_walk_complete s h.1, h.0)

title_id_walk_complete : (s : Bytes) → All IsTitleIdChar s → title_id_walk s ≡ true
unfolding title_id_walk is_title_id_char
title_id_walk_complete [] h = refl
title_id_walk_complete (c ∷ s) h = ground (arith, title_id_walk_complete s h.1, h.0)

-- The tests of daemoon_manifest_validate, each as it comes out for a manifest that is accepted.
record Passes (m : Manifest) : Type 0 where
  format : (m.format_version == manifest_format_version) ≡ true
  platform : is_unknown_platform m.platform ≡ false
  save_type : is_unknown_save_type m.save_type ≡ false
  id : is_valid_title_id m.title_id ≡ true
  digest : is_lower_hex64 m.sha256 ≡ true
  labelled : is_end m.device_label ≡ false
  label_text : valid m.device_label ≡ true
  newer : (not (m.version == version_none) && leb m.version m.parent_version) ≡ false

validate-Passes : (m : Manifest) → validate m ≡ ok tt → Passes m
unfolding validate
validate-Passes m h = record {
  format = ground arith;
  platform = ground arith;
  save_type = ground arith;
  id = ground arith;
  digest = ground arith;
  labelled = ground arith;
  label_text = ground arith;
  newer = ground arith;
}

Passes-validate : (m : Manifest) → Passes m → validate m ≡ ok tt
unfolding validate
Passes-validate m p =
    rw (p.format, p.platform, p.save_type, p.id, p.digest, p.labelled, p.label_text, p.newer) refl

known_platform : (p : Platform) → (is_unknown_platform p ≡ false) ↔ (p ≢ Platform.unknown)
unfolding is_unknown_platform
known_platform Platform.unknown = (λ h. absurd (false≢true (sym h)), λ h. absurd (h refl))
known_platform _ = (λ h e. cc, λ h. refl)

known_save_type : (t : SaveType) → (is_unknown_save_type t ≡ false) ↔ (t ≢ SaveType.unknown)
unfolding is_unknown_save_type
known_save_type SaveType.unknown = (λ h. absurd (false≢true (sym h)), λ h. absurd (h refl))
known_save_type _ = (λ h e. cc, λ h. refl)

has_label : (s : Bytes) → (is_end s ≡ false) ↔ (s ≢ [])
unfolding is_end
has_label [] = (λ h. absurd (false≢true (sym h)), λ h. absurd (h refl))
has_label (c ∷ s) = (λ h e. cc, λ h. refl)

title_id_lem :
    (s : Bytes)
    → (is_valid_title_id s ≡ true) ↔ (((4 ≤ length s) × (length s ≤ 32)) × All IsTitleIdChar s)
unfolding is_valid_title_id
title_id_lem s = (
  λ h. ((ground arith, ground arith), title_id_walk_sound s (ground arith)),
  λ (b, c). ground (arith, title_id_walk_complete s c),
)

digest_lem : (s : Bytes) → (is_lower_hex64 s ≡ true) ↔ ((length s ≡ 64) × All IsLowerHex s)
unfolding is_lower_hex64
digest_lem s = (
  lower_hex_walk_sound 64 s,
  λ (e, h). subst (λ n. lower_hex_walk n s ≡ true) e (lower_hex_walk_complete s h),
)

Passes-IsValid : (m : Manifest) → Passes m → IsValid m
Passes-IsValid m p = record {
  format = ==→eq m.format_version 1 p.format;
  platform_known = (known_platform m.platform).0 p.platform;
  save_type_known = (known_save_type m.save_type).0 p.save_type;
  id_length = ((title_id_lem m.title_id).0 p.id).0;
  id_chars = ((title_id_lem m.title_id).0 p.id).1;
  digest_length = ((digest_lem m.sha256).0 p.digest).0;
  digest_chars = ((digest_lem m.sha256).0 p.digest).1;
  labelled = (has_label m.device_label).0 p.labelled;
  label_text = p.label_text;
  newer = ground (arith, p.newer);
}

IsValid-Passes : (m : Manifest) → IsValid m → Passes m
IsValid-Passes m v = record {
  format = eq→== m.format_version 1 v.format;
  platform = (known_platform m.platform).1 v.platform_known;
  save_type = (known_save_type m.save_type).1 v.save_type_known;
  id = (title_id_lem m.title_id).1 (v.id_length, v.id_chars);
  digest = (digest_lem m.sha256).1 (v.digest_length, v.digest_chars);
  labelled = (has_label m.device_label).1 v.labelled;
  label_text = v.label_text;
  newer = ground (arith, v.newer);
}

-- A manifest is accepted exactly when it is of this format and of a known platform and save type, its
-- title id has 4 to 32 characters and is made of digits, capitals, `_` and `-`, its digest is 64 lower
-- case hexadecimal digits, its label is a non-empty text, and its version, if it has one, is newer
-- than its parent.
pub validate-IsValid : (m : Manifest) → (validate m ≡ ok tt) ↔ IsValid m
validate-IsValid m =
    (λ h. Passes-IsValid m (validate-Passes m h), λ v. Passes-validate m (IsValid-Passes m v))
