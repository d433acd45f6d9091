-- ===== src/Sync/Guard.antt =====
-- Which calls core/src/sync.c may make, and after what. `opts` says
-- which questions the caller has settled already.
use dae_moon.Prelude.{◌≡◌, ◌⊎◌, inl, inr, Bool, true, false, none, some, Bytes, ◌==◌}
use dae_moon.Errors.{ok, err, not_found}
use dae_moon.Messages.{StrId}
use dae_moon.Backend.{Title}
use dae_moon.Manifest.{Manifest}
use dae_moon.Sync.Decide.{RemoteMeta}
use dae_moon.Sync.Calls.{
  Call, Answer, Save, Stream, Payload, open_save, open_save_write, commit, write_secure_value,
  clear_secure_value, hash_save, pack, read_manifest, verify, unpack, api_upload, fs_exists, rename,
  confirm, choose, mkdir_p, fs_open, stream_close,
}
use dae_moon.Sync.Io.{History, event}
use dae_moon.Sync.Backup.{str_ref, backup_path}
use dae_moon.Sync.Restore.{is_for}
use dae_moon.Sync.Options.{Policy, Opts}
use dae_moon.Sync.Packaged.{IsPublished, IsPublished-Grows}
use dae_moon.Sync.Trace.{Happened, Grows, Guard}

-- A backup of what is in the title's save stands under its name: the save was opened and its digest
-- taken, it is not empty, and the package of that name was there, or the title's save was packed and the
-- package published under that name.
pub record IsBackedUp (t : Title) (h : History) : Type 0 where
  pub save : Save
  pub payload : Payload
  pub dir : Bytes
  pub path : Bytes
  pub opened : Happened (event (open_save t) (ok save)) h
  pub hashed : Happened (event (hash_save save) (ok payload)) h
  pub filled : (payload.count == 0) ≡ false
  pub named : backup_path dir t payload.sha256 ≡ ok path
  pub stored : Happened (event (fs_exists path) true) h ⊎ IsPublished t path h

-- The answers by which a backup can come to the failure not_found.
abbrev pub SaysNotFound : (c : Call) → Answer c → Type 0
SaysNotFound (mkdir_p p) r = r ≡ err not_found
SaysNotFound (open_save t) r = r ≡ err not_found
SaysNotFound (hash_save s) r = r ≡ err not_found
SaysNotFound (fs_open p m) r = r ≡ err not_found
SaysNotFound (pack s m f) r = r ≡ err not_found
SaysNotFound (stream_close f) r = r ≡ err not_found
SaysNotFound (rename a b) r = r ≡ err not_found
SaysNotFound c r = ⊥

pub record MetNotFound (h : History) : Type 0 where
  pub what : Call
  pub answer : Answer what
  pub told : SaysNotFound what answer
  pub happened : Happened (event what answer) h

-- The package was read and verified, and it is this title's.
pub record IsVerified (t : Title) (m : Manifest) (h : History) : Type 0 where
  pub pkg : Stream
  pub declared : Happened (event (read_manifest pkg) (ok m)) h
  pub intact : Happened (event (verify pkg m) (ok tt)) h
  pub own : is_for m t ≡ true

-- The user was asked about overwriting the save, here or before.
abbrev pub IsAsked : Bool → Title → History → Type 0
IsAsked confirmed t h =
    (confirmed ≡ true) ⊎ Happened (event (confirm (str_ref StrId.confirm_restore t.name)) true) h

-- The title's save was opened for writing, a package was unpacked into it, and that was committed.
pub record IsCommitted (t : Title) (h : History) : Type 0 where
  pub save : Save
  pub pkg : Stream
  pub opened : Happened (event (open_save_write t) (ok save)) h
  pub unpacked : Happened (event (unpack pkg save) (ok tt)) h
  pub committed : Happened (event (commit save) (ok tt)) h

-- The manifest is that of a package whose payload is not empty.
pub record IsPacked (m : Manifest) (h : History) : Type 0 where
  pub save : Save
  pub identity : Manifest
  pub file : Stream
  pub payload : Payload
  pub packed : Happened (event (pack save identity file) (ok payload)) h
  pub filled : (payload.count == 0) ≡ false
  pub complete : m ≡ record identity { sha256 = payload.sha256; size = payload.size }

-- The server took the package of a manifest, and issued a version for it.
pub record IsSent (h : History) : Type 0 where
  pub manifest : Manifest
  pub file : Stream
  pub issued : RemoteMeta
  pub packed : IsPacked manifest h
  pub sent : Happened (event (api_upload manifest file file.size) (ok issued)) h

-- Before a save is opened for writing: the question, the backup, and the check of the package.
pub record IsReady (confirmed : Bool) (t : Title) (h : History) : Type 0 where
  pub asked : IsAsked confirmed t h
  pub kept : IsBackedUp t h ⊎ MetNotFound h
  pub manifest : Manifest
  pub checked : IsVerified t manifest h

module _ (opts : Opts) where
  abbrev pub Allowed : Guard
  Allowed (open_save_write t) h = IsReady opts.restore_confirmed t h
  Allowed (unpack pkg save) h = (t : Title) × Happened (event (open_save_write t) (ok save)) h
  Allowed (commit save) h = (pkg : Stream) × Happened (event (unpack pkg save) (ok tt)) h
  Allowed (write_secure_value t v) h =
      IsCommitted t h × (m : Manifest) × IsVerified t m h × (m.secure_value ≡ some v)
  Allowed (clear_secure_value t) h =
      IsCommitted t h × (m : Manifest) × IsVerified t m h × (m.secure_value ≡ none)
  Allowed (api_upload m f n) h = IsPacked m h
  Allowed (confirm m) h =
      ((m.id ≡ StrId.confirm_restore) × (opts.restore_confirmed ≡ false))
      ⊎ ((m.id ≡ StrId.confirm_upload) × (opts.upload_confirmed ≡ false))
  Allowed (choose m options) h = opts.conflict ≡ Policy.ask_user
  Allowed c h = Unit

-- The calls that need nothing.
abbrev pub IsPlain : Call → Type 0
IsPlain (open_save_write t) = ⊥
IsPlain (unpack pkg save) = ⊥
IsPlain (commit save) = ⊥
IsPlain (write_secure_value t v) = ⊥
IsPlain (clear_secure_value t) = ⊥
IsPlain (api_upload m f n) = ⊥
IsPlain (confirm m) = ⊥
IsPlain (choose m options) = ⊥
IsPlain c = Unit

pub Allowed-IsPlain : (opts : Opts) (c : Call) (h : History) → IsPlain c → Allowed opts c h
Allowed-IsPlain opts (open_save_write t) h p = absurd p
Allowed-IsPlain opts (unpack pkg save) h p = absurd p
Allowed-IsPlain opts (commit save) h p = absurd p
Allowed-IsPlain opts (write_secure_value t v) h p = absurd p
Allowed-IsPlain opts (clear_secure_value t) h p = absurd p
Allowed-IsPlain opts (api_upload m f n) h p = absurd p
Allowed-IsPlain opts (confirm m) h p = absurd p
Allowed-IsPlain opts (choose m options) h p = absurd p
Allowed-IsPlain opts _ h p = tt

-- What has happened once stays so.
pub IsBackedUp-Grows : {t : Title} {h h' : History} → Grows h h' → IsBackedUp t h → IsBackedUp t h'
IsBackedUp-Grows g b = record {
  save = b.save;
  payload = b.payload;
  dir = b.dir;
  path = b.path;
  opened = g.keep _ b.opened;
  hashed = g.keep _ b.hashed;
  filled = b.filled;
  named = b.named;
  stored = elim b.stored [ inl x ↦ inl (g.keep _ x) | inr x ↦ inr (IsPublished-Grows g x) ];
}

pub MetNotFound-Grows : {h h' : History} → Grows h h' → MetNotFound h → MetNotFound h'
MetNotFound-Grows g b = record {
  what = b.what;
  answer = b.answer;
  told = b.told;
  happened = g.keep _ b.happened;
}

pub IsAsked-Grows :
    (confirmed : Bool) (t : Title) {h h' : History}
    → Grows h h'
    → IsAsked confirmed t h
    → IsAsked confirmed t h'
IsAsked-Grows confirmed t g (inl e) = inl e
IsAsked-Grows confirmed t g (inr x) = inr (g.keep _ x)

pub kept-Grows :
    (t : Title) {h h' : History}
    → Grows h h'
    → IsBackedUp t h ⊎ MetNotFound h
    → IsBackedUp t h' ⊎ MetNotFound h'
kept-Grows t g (inl b) = inl (IsBackedUp-Grows g b)
kept-Grows t g (inr b) = inr (MetNotFound-Grows g b)

pub IsVerified-Grows :
    {t : Title} {m : Manifest} {h h' : History} → Grows h h' → IsVerified t m h → IsVerified t m h'
IsVerified-Grows g v = record {
  pkg = v.pkg;
  declared = g.keep _ v.declared;
  intact = g.keep _ v.intact;
  own = v.own;
}

pub IsCommitted-Grows :
    {t : Title} {h h' : History} → Grows h h' → IsCommitted t h → IsCommitted t h'
IsCommitted-Grows g c = record {
  save = c.save;
  pkg = c.pkg;
  opened = g.keep _ c.opened;
  unpacked = g.keep _ c.unpacked;
  committed = g.keep _ c.committed;
}

pub IsPacked-Grows : {m : Manifest} {h h' : History} → Grows h h' → IsPacked m h → IsPacked m h'
IsPacked-Grows g p = record {
  save = p.save;
  identity = p.identity;
  file = p.file;
  payload = p.payload;
  packed = g.keep _ p.packed;
  filled = p.filled;
  complete = p.complete;
}

pub IsReady-Grows :
    {confirmed : Bool} {t : Title} {h h' : History}
    → Grows h h'
    → IsReady confirmed t h
    → IsReady confirmed t h'
IsReady-Grows {confirmed = confirmed} {t = t} g r = record {
  asked = IsAsked-Grows confirmed t g r.asked;
  kept = kept-Grows t g r.kept;
  manifest = r.manifest;
  checked = IsVerified-Grows g r.checked;
}

pub IsSent-Grows : {h h' : History} → Grows h h' → IsSent h → IsSent h'
IsSent-Grows g s = record {
  manifest = s.manifest;
  file = s.file;
  issued = s.issued;
  packed = IsPacked-Grows g s.packed;
  sent = g.keep _ s.sent;
}
