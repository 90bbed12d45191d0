-- ===== src/Lib.antt =====
-- Verification of the offline media catalog (paths are from the repository's root).
--
-- The program scans disks and disc images into a SQLite catalog and serves it read-only over HTTP. The
-- files below model the scan of a source into the catalog with its transactions, and the code whose
-- results depend on untrusted bytes: names and directories on disc images, queries and requests of
-- clients, and the contents that are hashed.
--
-- - Base: shared notation, comparison, lists over native numbers, bit masks (Base/Bits, Base/Xor) and
--   texts (Base/Text). Bytes are numbers below 256 and a text is the list of its bytes.
-- - Utf8: the encoder and the validator of providers/iso/udf/udf_unicode.cpp (`append_utf8_codepoint`,
--   `is_valid_utf8`). Utf8/Encoding says what UTF-8 is.
-- - UdfUnicode: the rest of that file (`decode_utf16be_to_utf8`, `decode_udf_name`,
--   `decode_udf_dstring`, `heuristic_decode_name`).
-- - Search: `build_fts_query` of src/scanner/search.cpp with its decoder and encoder; the searches of
--   `SearchEngine` are in Search/Engine.
-- - Checksum: the engines of src/core/checksum.cpp. Checksum/Blocks holds the buffering and padding that
--   SHA-256 and MD5 share; the block functions are in Checksum/Sha256 and Checksum/Md5, and the
--   interface with its factory (src/core/checksum.h) in Checksum/Engines.
-- - Types: the enumerations and records of src/core/types.h and src/core/types.cpp.
-- - Http: src/server/http.cpp. `read_request` is a function of the chunks that `recv` delivers, and
--   `response_text` is what `send_response` sends.
-- - Viewer: src/server/viewer.cpp, and `handle_client` of src/server/server.cpp in Viewer/Client. The
--   catalog managers, the file system, `std::sort` and the number conversions are fields of `Backend`.
-- - Iso9660: providers/iso/iso9660/iso9660_parser.cpp. The image is a function from sectors, and `mktime`
--   a parameter; an exception of the parser is a value of its own.
-- - Joliet: providers/iso/joliet/joliet_parser.cpp, over the same sectors.
-- - Udf: providers/iso/udf/udf_parser.cpp. Udf/Volume opens an image, Udf/Records reads file entries and
--   identifiers, Udf/Directory is `read_directory` and Udf/Root `read_root_directory`. The open file is a
--   function from an offset and a size. Udf/Fids and Udf/Tags say how descriptors are written.
-- - Database: statements and transactions of src/database/database.cpp. The connection itself is the
--   record `Database` over an unknown state, since what a statement does is SQLite's.
-- - Catalog: the managers of src/catalog/catalog.cpp (Catalog/Sources, Entries, Records) and `build_path`
--   (Catalog/Paths).
-- - Container: the registry of providers and the writer of virtual entries (src/container/provider.cpp).
-- - Scanner: src/scanner/scanner.cpp. Scanner/Files has the checksums and containers of a file,
--   Scanner/Directory the loop over a directory, Scanner/Sources `scan_source` with its transactions, and
--   Scanner/Shadow the removal of trees that a scan left behind.
--   Scanner/Storage says what SQLite promises about the rows of a source; Scanner/Tables is a database in
--   memory, with transactions and statements that can be made to fail, for which this is proved.
-- - IsoProvider: `walk_iso_directory` of providers/iso/iso_provider.cpp with its helpers; the walk of a UDF
--   image is in IsoProvider/UdfWalk, `probe`, `scan_udf` and `scan_iso9660` are in IsoProvider/Formats, and
--   `scan` with `expand_nested` in IsoProvider/Scan. The files and the database are parameters.
--
-- A scan (Scanner) writes sources, entries and checksums through the managers (Catalog) in transactions
-- (Database), hashes with the engines (Checksum) and hands images to a provider (Container). The walk of
-- an image (IsoProvider) gets its directories from a parser (Udf, Joliet or Iso9660), whose names
-- UdfUnicode decodes, and writes entries through the writer of Container. The engine that answers
-- searches (Search) reads the entries of the catalog. The server reads a request (Http) and hands it to the viewer (Viewer), which
-- answers from the catalog (Types) and escapes what it prints (Http).
--
-- Numbers are natural numbers; a machine word keeps its wrap-around as `% 2 ^ w`. Loops over bytes
-- recurse on the bytes, or on fuel for each byte where a round takes a computed number of them; each
-- round takes at least one byte, four for a SUSP record and 33 for a directory record, so the fuel is
-- enough. Continuation areas nest at most nine deep, as in the source. A directory on disk is a finite
-- tree that does not change during a scan, a directory on an image is entered at most 256 levels deep,
-- and a file is extracted with one round of fuel for each byte. `build_path` follows parents on fuel: more
-- than the number of parents is enough. The scanner takes it as `entry_path`, its result.
--
-- Not modelled: the exception of a Rock Ridge record behind the parser (IsoProvider reads such a
-- directory as one that cannot be read); what SQL statements select and the schema, a library's language;
-- opening files, sockets, logging, progress output and the command line, which are input and output.
-- Sums of sizes are taken without the bounds of `int64_t`.
pub mod Base
pub mod Utf8
pub mod UdfUnicode
pub mod Search
pub mod Checksum
pub mod Http
pub mod Types
pub mod Viewer
pub mod Iso9660
pub mod Joliet
pub mod Udf
pub mod Database
pub mod Catalog
pub mod Container
pub mod Scanner
pub mod IsoProvider
