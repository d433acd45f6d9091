-- ===== src/Backend/Names.antt =====
-- The enumerations of core/include/daemoon/backend.h and their spellings in core/src/backend.c.
use dae_moon.Prelude.{Bytes, text, bytes_eq, if◌then◌else◌, ◌≡◌, refl}

pub data Platform : Type 0 where
  unknown n3ds nx nds : Platform

pub data SaveType : Type 0 where
  unknown savedata extdata nds : SaveType

unfoldable pub platform_name : Platform → Bytes
platform_name Platform.n3ds = text "3ds"
platform_name Platform.nx = text "nx"
platform_name Platform.nds = text "nds"
platform_name Platform.unknown = text "unknown"

unfoldable pub platform_parse : Bytes → Platform
platform_parse s =
    if bytes_eq s (text "3ds")
    then Platform.n3ds
    else if bytes_eq s (text "nx")
    then Platform.nx
    else if bytes_eq s (text "nds")
    then Platform.nds
    else Platform.unknown

unfoldable pub save_type_name : SaveType → Bytes
save_type_name SaveType.savedata = text "savedata"
save_type_name SaveType.extdata = text "extdata"
save_type_name SaveType.nds = text "nds"
save_type_name SaveType.unknown = text "unknown"

unfoldable pub save_type_parse : Bytes → SaveType
save_type_parse s =
    if bytes_eq s (text "savedata")
    then SaveType.savedata
    else if bytes_eq s (text "extdata")
    then SaveType.extdata
    else if bytes_eq s (text "nds")
    then SaveType.nds
    else SaveType.unknown

-- A spelling reads back as the value that was written, the unknown one included.
pub platform_parse-name : (p : Platform) → platform_parse (platform_name p) ≡ p
unfolding platform_parse platform_name bytes_eq
platform_parse-name Platform.unknown = refl
platform_parse-name _ = refl

-- The name of a save type is read back as that save type, the unknown one included.
pub save_type_parse-name : (t : SaveType) → save_type_parse (save_type_name t) ≡ t
unfolding save_type_parse save_type_name bytes_eq
save_type_parse-name SaveType.unknown = refl
save_type_parse-name _ = refl
