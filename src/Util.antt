-- ===== src/Util.antt =====
-- core/src/util: the bounded string builder, UTF-8, JSON tokens and the digest.
pub mod Strbuf
pub mod Utf8
pub mod Copy
pub mod Json
pub mod Digest
pub mod Sha256
