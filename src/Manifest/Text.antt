-- ===== src/Manifest/Text.antt =====
-- The text of a manifest, and that daemoon_manifest_write of core/src/manifest.c writes it.
use dae_moon.Prelude.{
  ℕ, ◌==◌, if◌then◌else◌, Bool, true, false, Option, none, some, List, [], ◌∷◌, ◌++◌, Bytes, text,
  length, ltb, ◌≡◌, sym, subst, ap, append-nil, append_assoc,
}
use dae_moon.Errors.{Result, ok, err, ◌>>=◌, buffer_too_small}
use dae_moon.Util.Strbuf.{Strbuf, init, add, add_json, add_uint, uint_text}
use dae_moon.Util.Strbuf.Refine.{Holds, init-Holds, addn-Holds, result-Holds}
use dae_moon.Util.Strbuf.Escape.{escape, add_json-Holds}
use dae_moon.Util.Digest.{is_end}
use dae_moon.Backend.Names.{platform_name, save_type_name}
use dae_moon.Manifest.{Manifest, version_none}
use dae_moon.Manifest.Check.{validate}
use dae_moon.Manifest.Print.{add_parent, add_name, add_secure, add_manifest, write}

unfoldable pub parent_text : ℕ → Bytes
parent_text v = if v == version_none then text "null" else uint_text v

unfoldable pub name_text : Bytes → Bytes
name_text name = if is_end name then [] else text "\",\"title_name\":\"" ++ escape name

unfoldable pub secure_text : Option ℕ → Bytes
secure_text none = []
secure_text (some v) = text ",\"secure_value\":" ++ uint_text v

abbrev pub glue : List Bytes → Bytes
glue [] = []
glue (s ∷ ss) = s ++ glue ss

-- The pieces of the one line of JSON for a manifest.
unfoldable pub pieces : Manifest → List Bytes
pieces m =
    text "{\"format_version\":"
    ∷ uint_text m.format_version
    ∷ text ",\"platform\":\""
    ∷ escape (platform_name m.platform)
    ∷ text "\",\"title_id\":\""
    ∷ escape m.title_id
    ∷ text "\",\"save_type\":\""
    ∷ escape (save_type_name m.save_type)
    ∷ text "\",\"version\":"
    ∷ uint_text m.version
    ∷ text ",\"parent_version\":"
    ∷ parent_text m.parent_version
    ∷ text ",\"sha256\":\""
    ∷ escape m.sha256
    ∷ text "\",\"size\":"
    ∷ uint_text m.size
    ∷ text ",\"device_label\":\""
    ∷ escape m.device_label
    ∷ text "\",\"created_at\":\""
    ∷ escape m.created_at
    ∷ name_text m.title_name
    ∷ text "\""
    ∷ secure_text m.secure_value
    ∷ text "}"
    ∷ []

unfoldable pub manifest_text : Manifest → Bytes
manifest_text m = glue (pieces m)

-- A step of the builder that adds a text, whatever is there and whatever fits.
record Adds (step : Strbuf → Strbuf) (s : Bytes) : Type 0 where
  grow : (cap : ℕ) (sb : Strbuf) (w : Bytes) → Holds cap sb w → Holds cap (step sb) (w ++ s)

infixr 5 ◌&◌
◌&◌ : {f g : Strbuf → Strbuf} {s t : Bytes} → Adds f s → Adds g t → Adds (λ sb. g (f sb)) (s ++ t)
◌&◌ {f = f} {s = s} {t = t} p q = record {
  grow = λ cap sb w h.
      subst (Holds cap _) (append_assoc w s t) (q.grow cap (f sb) (w ++ s) (p.grow cap sb w h));
}

add-Adds : (s : Bytes) → Adds (λ sb. add sb s) s
unfolding add
add-Adds s = record { grow = λ cap sb w h. addn-Holds s h }

add_uint-Adds : (v : ℕ) → Adds (λ sb. add_uint sb v) (uint_text v)
unfolding add_uint
add_uint-Adds v = record { grow = λ cap sb w h. addn-Holds (uint_text v) h }

add_json-Adds : (s : Bytes) → Adds (λ sb. add_json sb s) (escape s)
add_json-Adds s = record { grow = λ cap sb w h. add_json-Holds s h }

same-Adds : Adds (λ sb. sb) []
same-Adds = record { grow = λ cap sb w h. subst (Holds cap sb) (sym (append-nil w)) h }

if-Adds :
    (b : Bool) {f g : Strbuf → Strbuf} {s t : Bytes}
    → Adds f s
    → Adds g t
    → Adds (λ sb. if b then f sb else g sb) (if b then s else t)
if-Adds true p q = p
if-Adds false p q = q

add_parent-Adds : (v : ℕ) → Adds (λ sb. add_parent sb v) (parent_text v)
unfolding add_parent parent_text
add_parent-Adds v = if-Adds (v == version_none) (add-Adds _) (add_uint-Adds v)

add_name-Adds : (name : Bytes) → Adds (λ sb. add_name sb name) (name_text name)
unfolding add_name name_text
add_name-Adds name = if-Adds (is_end name) same-Adds (add-Adds _ & add_json-Adds name)

add_secure-Adds : (v : Option ℕ) → Adds (λ sb. add_secure sb v) (secure_text v)
unfolding add_secure secure_text
add_secure-Adds none = same-Adds
add_secure-Adds (some v) = add-Adds _ & add_uint-Adds v

add_manifest-Adds : (m : Manifest) → Adds (λ sb. add_manifest sb m) (manifest_text m)
unfolding add_manifest manifest_text pieces
add_manifest-Adds m =
    add-Adds _
    & add_uint-Adds m.format_version
    & add-Adds _
    & add_json-Adds (platform_name m.platform)
    & add-Adds _
    & add_json-Adds m.title_id
    & add-Adds _
    & add_json-Adds (save_type_name m.save_type)
    & add-Adds _
    & add_uint-Adds m.version
    & add-Adds _
    & add_parent-Adds m.parent_version
    & add-Adds _
    & add_json-Adds m.sha256
    & add-Adds _
    & add_uint-Adds m.size
    & add-Adds _
    & add_json-Adds m.device_label
    & add-Adds _
    & add_json-Adds m.created_at
    & add_name-Adds m.title_name
    & add-Adds _
    & add_secure-Adds m.secure_value
    & add-Adds _
    & same-Adds

-- A manifest that passes the check is written as its whole text when that fits with its NUL, and
-- refused as buffer_too_small otherwise; a manifest that does not pass is refused.
pub write-manifest_text :
    (m : Manifest) (cap : ℕ)
    → write m cap ≡ (
        validate m >>= λ _.
        if ltb (length (manifest_text m)) cap then ok (manifest_text m) else err buffer_too_small)
unfolding write
write-manifest_text m cap =
    ap (λ (r : Result Bytes). validate m >>= λ _. r)
      (result-Holds ((add_manifest-Adds m).grow cap (init cap) [] (init-Holds cap)))
