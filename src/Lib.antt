-- ===== src/Lib.antt =====
-- DaeMoon keeps console save data in step with a server. A client is the portable C core under
-- core/ with a set of backends for its platform; this library models the core, and of the clients
-- what they decide on their own.
--
-- The parts and the modules that model them:
--
-- * Errors is core/include/daemoon/error_codes.h and core/src/error_table.c: failures, and how they
--   are written to and read from the wire.
-- * Util is core/src/util: the bounded string builder (Strbuf), UTF-8 (Utf8), the bounded copy
--   daemoon_strlcpy (Copy), the JSON reader (Json), SHA-256 (Sha256) and the spelling of digests
--   (Digest).
-- * Backend is core/include/daemoon/backend.h and core/src/backend.c: titles, the environment of
--   function pointers and its check, platform names; Streams has the stream functions.
-- * Manifest is core/src/manifest.c: Check validates, Parse reads and Print writes a manifest; Valid,
--   Read, Text and Room are about them.
-- * Api is core/src/api.c. Request builds addresses, headers and bodies; Routing says where the bytes of
--   a response go; Exchange makes a request and tries again; Reading reads the bodies; Client has the
--   five calls, and Pairing the text of a pairing code. What the network backend does with a request is
--   a value of Exchange, any sequence of reads of the request body and writes of the response body,
--   so a theorem about every exchange covers every way that a body is cut and every broken transfer.
-- * Archive is core/src/archive.c. Paths says which paths are accepted, Collecting how entries are
--   collected, and Framing what the payload digest is taken of. Zip has the callbacks that the vendored
--   zip library reads and writes a package through; a call of the library is a value of Reads or
--   Writes, any sequence of such callbacks, so a theorem about every value covers every damaged
--   package. Reader opens and verifies a package, Unpack writes it into a save, Hashing takes the
--   digest of a save, and Packing makes a package of one; what both begin with, the entries of a
--   listing, is in Hashing.Listed.
-- * Messages is core/include/daemoon/str_ids.h, and I18n is core/src/i18n.c: Languages has the languages and
--   the lookup of a text, Codes is about language codes, Format fills a text in, and Pieces is about
--   that.
-- * Sync is core/src/sync.c. Decide chooses what to do about a title; Options holds the caller's
--   choices and the counters, Paths the names under the work directory; State reads and writes the
--   record of the last sync (Reading is about its loop); Backup, Restore and Transfer do the work;
--   Run is daemoon_sync_title_with and its counters.
-- * Consoles has what the clients decide apart from their screens: TitleId is title_id.c of
--   platform/3ds/source and platform/nx/source, Backups the order of backups in backup_list.c,
--   Settings is config.c of the 3DS client, with what the C library does to its files as a parameter,
--   Unattended the *_steps.c files of the 3DS client, and Config is platform/common/config_lines.c.
--
-- The engine talks to its backends, to the archive functions and to the API client. Here each such
-- call is a constructor of Sync.Calls.Call, and an engine function is a tree of type Sync.Io.Io that
-- makes calls and goes on with their answers. An environment is any function that answers a call
-- from the history of calls so far, so a theorem about every environment covers every failure, every
-- answer of the user and every interleaving of other changes to the save, the server and the file
-- system. Trace has the proof rules for such trees, Packaged says what has happened, in which order, when
-- a package is published, and Guard which call is allowed when. Keeping, Backups, Restoring, Writing, Transferring and Accounts prove it of each function, and Promise
-- states it of the entry points.
--
-- C strings are lists of bytes before the NUL. A buffer of the caller is its length, and what is
-- written is the result. Numbers have their wrap-around or the test for overflow written out where they
-- can come to their bound, and the count of the bytes of one file is unbounded. A NULL pointer that the code tests for is `none`.
--
-- Loops are structural, with these exceptions on fuel: the walks over UTF-8 text and over the
-- blocks of a hash get the length of the text, and each round consumes a byte at least; the
-- reading loop of daemoon_sync_state_load gets one round more than its buffer has bytes, and each
-- round that goes on fills one byte at least; daemoon_stream_read_full likewise. A copy between streams
-- and the hashing of a file are given a number of rounds, and their results say when they were not
-- enough; the reading callback of a package gets one round more than it is asked for bytes, and each
-- round that goes on has read one.
--
-- Not modelled: the zip format (miniz) and the JSON tokenizer (jsmn) are third-party code, the first
-- as any use of the callbacks and the second a parameter; the consoles' user interfaces and
-- file access; the server, a Go program; the address arithmetic of C buffers; and the context
-- pointers that the code passes through.
pub mod Prelude
pub mod Errors
pub mod Util
pub mod Backend
pub mod Manifest
pub mod Messages
pub mod I18n
pub mod Api
pub mod Archive
pub mod Sync
pub mod Consoles
pub mod Tests
