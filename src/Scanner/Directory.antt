-- ===== src/Scanner/Directory.antt =====
-- `scan_directory` and `scan_file_entry` of src/scanner/scanner.cpp. The body of the loop over a
-- directory stands apart from the recursion.
use offline_media_catalog.Base.{
  ℕ, suc, ◌%◌, Bool, true, false, List, [], ◌∷◌, ◌++◌, Option, none, some, ◌==◌, if◌then◌else◌,
}
use offline_media_catalog.Base.Text.{bytes_of}
use offline_media_catalog.Types.{
  ℤ, pos, Error, Result, ok, err, EntryData, EntryType, SourceData, ScanOptions,
}
use offline_media_catalog.Database.{failure, execute, value_or}
use offline_media_catalog.Catalog.Sources.{get_source}
use offline_media_catalog.Catalog.Entries.{insert_entry, insert_fts}
use offline_media_catalog.Scanner.{
  Environment, Scan, FileInfo, FileKind, Listing, size_of, add_size, look, stored, add_error,
  note_unprobed_file,
}
use offline_media_catalog.Scanner.Files.{request_checksums, expand_container_if_needed}

abbrev pub batch_size : ℕ
batch_size = 1000

abbrev pub scan_cancelled : Error
scan_cancelled = record { code = 0; message = bytes_of "Scan cancelled" }

abbrev pub entry_type_for : FileKind → EntryType
entry_type_for FileKind.symlink = EntryType.symlink
entry_type_for FileKind.directory = EntryType.directory
entry_type_for FileKind.regular = EntryType.file
entry_type_for FileKind.special = EntryType.other

abbrev time_or_zero : Option ℤ → ℤ
time_or_zero none = pos 0
time_or_zero (some t) = t

-- The total with the size of a file, if it was found.
abbrev pub add_found : ℤ → Option ℕ → ℤ
add_found total none = total
add_found total (some n) = add_size total (pos n)

abbrev size_if_file : FileKind → Option ℕ → ℤ
size_if_file FileKind.regular size = size_of size
size_if_file _ size = pos 0

-- The entry of an item of a directory; without its status it has no more than name and type.
unfoldable pub entry_data : ℤ → ℤ → FileInfo → FileKind → EntryData
entry_data source_id parent_id info kind = elim info.status [
  | none ↦ record {
    id = pos 0;
    source_id = source_id;
    parent_id = parent_id;
    name = info.name;
    type = entry_type_for kind;
    size = pos 0;
    mtime = pos 0;
    ctime = pos 0;
    atime = pos 0;
    birthtime = pos 0;
    mode = pos 0;
    attributes = pos 0;
    is_virtual = false;
  }
  | some _ ↦ record {
    id = pos 0;
    source_id = source_id;
    parent_id = parent_id;
    name = info.name;
    type = entry_type_for kind;
    size = size_if_file kind info.file_size;
    mtime = time_or_zero info.last_write_time;
    ctime = pos 0;
    atime = pos 0;
    birthtime = time_or_zero info.creation_time;
    mode = info.permissions;
    attributes = pos 0;
    is_virtual = false;
  }
]

-- The entry of a source that is one file.
unfoldable pub file_entry_data : ℤ → ℤ → FileInfo → EntryData
file_entry_data source_id parent_id info = record {
  id = pos 0;
  source_id = source_id;
  parent_id = parent_id;
  name = info.name;
  type = EntryType.file;
  size = size_of info.file_size;
  mtime = time_or_zero info.last_write_time;
  ctime = pos 0;
  atime = pos 0;
  birthtime = time_or_zero info.creation_time;
  mode = pos 0;
  attributes = pos 0;
  is_virtual = false;
}

-- How the body of the loop ends: with the next item, with an error of the function, or at a directory
-- with that entry id.
pub data Step : Type 0 where
  next : Step
  stop : Error → Step
  enter : ℤ → Step

module _ {S : Type 0} (env : Environment S) (options : ScanOptions) where
  abbrev add_total : ℤ → Scan S → Scan S
  add_total size st = record st { total_size = add_size st.total_size size }

  abbrev name_or_nothing : Result SourceData → List ℕ
  name_or_nothing (ok source) = source.name
  name_or_nothing (err e) = []

  -- The index is written with the path and the name of the source as far as they can be found.
  unfoldable pub index_entry : ℤ → ℤ → List ℕ → Scan S → Scan S
  index_entry source_id entry_id name st =
      (stored
        (insert_fts env.db entry_id name (value_or (env.entry_path entry_id st.store) name)
          (name_or_nothing (get_source env.db source_id st.store)))
        st).1

  -- The batch commit after every `batch_size` entries.
  unfoldable pub checkpoint : Scan S → Result Bool × Scan S
  checkpoint st =
      let (c, st1) = stored (execute env.db "COMMIT;") st in
      let (b, st2) = stored (execute env.db "BEGIN;") st1 in
      elim (st.batch_counter % batch_size == 0) [
        | false ↦ (ok true, st)
        | true ↦ elim c [
          | err e ↦ (
            err (record { code = 1; message = bytes_of "Batch commit failed: " ++ e.message }),
            st1,
          )
          | ok _ ↦ elim b [
            | err e ↦ (err (failure "Batch begin failed"), st2)
            | ok _ ↦ (ok true, st2)
          ]
        ]
      ]

  -- A file that has an entry.
  unfoldable pub scan_file : ℤ → FileInfo → ℤ → Scan S → Scan S
  scan_file entry_id info size st =
      let (failed, st1) = request_checksums env entry_id info options (
        note_unprobed_file env info size options
          (record st { files_scanned = suc st.files_scanned })) in
      expand_container_if_needed env entry_id info options (if failed then add_error st1 else st1)

  -- The end of the loop's body, by the type of the entry.
  unfoldable pub after_batch : ℤ → FileInfo → EntryData → Result Bool × Scan S → Step × Scan S
  unfolding scan_file
  after_batch entry_id info entry (err e, st) = (stop e, st)
  after_batch entry_id info entry (ok _, st) = elim entry.type [
    | EntryType.directory ↦ (enter entry_id, record st { dirs_scanned = suc st.dirs_scanned })
    | EntryType.file ↦ (next, scan_file entry_id info entry.size st)
    | _ ↦ (next, st)
  ]

  unfoldable pub after_insert : ℤ → FileInfo → EntryData → Result ℤ × Scan S → Step × Scan S
  unfolding index_entry checkpoint after_batch
  after_insert source_id info entry (err e, st) = (next, add_error st)
  after_insert source_id info entry (ok entry_id, st) =
      let st1 = index_entry source_id entry_id info.name st in
      after_batch entry_id info entry
        (checkpoint (record st1 { batch_counter = suc st1.batch_counter }))

  unfoldable pub scan_kind : ℤ → ℤ → FileInfo → FileKind → Scan S → Step × Scan S
  unfolding after_insert entry_data
  scan_kind source_id parent_id info kind st =
      let entry = entry_data source_id parent_id info kind in
      after_insert source_id info entry
        (stored (insert_entry env.db entry) (add_total entry.size st))

  -- The body of the loop for an item that the iterator could read.
  unfoldable pub scan_item : ℤ → ℤ → FileInfo → Scan S → Step × Scan S
  unfolding scan_kind
  scan_item source_id parent_id info st =
      let (cancelled, st1) = look env st in
      elim cancelled [
        | true ↦ (stop scan_cancelled, st1)
        | false ↦ elim info.name [
          | [] ↦ (next, st1)
          | _ ∷ _ ↦ elim info.symlink_status [
            | none ↦ (next, add_error st1)
            | some kind ↦ scan_kind source_id parent_id info kind st1
          ]
        ]
      ]

  abbrev is_cancellation : Error → Bool
  is_cancellation e = e.code == 0

  -- The loop over a directory, which is entered after a look at the flag.
  unfoldable pub scan_listing : ℤ → ℤ → Listing → Scan S → Result ℤ × Scan S
  unfolding scan_item
  scan_listing source_id parent_id Listing.end st = (ok parent_id, st)
  scan_listing source_id parent_id (Listing.unreadable rest) st =
      scan_listing source_id parent_id rest (add_error st)
  scan_listing source_id parent_id (Listing.entry info children rest) st =
      let (step, st1) = scan_item source_id parent_id info st in
      elim step [
        | next ↦ scan_listing source_id parent_id rest st1
        | stop e ↦ (err e, st1)
        | enter entry_id ↦ elim ((look env st1).0) [
          | true ↦ (err scan_cancelled, (look env st1).1)
          | false ↦
              (let (sub, st2) = scan_listing source_id entry_id children (look env st1).1 in
                elim sub [
                  | ok _ ↦ scan_listing source_id parent_id rest st2
                  | err e ↦ elim (is_cancellation e) [
                    | true ↦ (err e, st2)
                    | false ↦ scan_listing source_id parent_id rest (add_error st2)
                  ]
                ])
        ]
      ]

  unfoldable pub scan_directory : ℤ → ℤ → Listing → Scan S → Result ℤ × Scan S
  unfolding scan_listing
  scan_directory source_id parent_id listing st =
      let (cancelled, st1) = look env st in
      elim cancelled [
        | true ↦ (err scan_cancelled, st1)
        | false ↦ scan_listing source_id parent_id listing st1
      ]

  -- The same for a source that is one file, where a failed checksum is no error of the scan.
  unfoldable pub scan_single : ℤ → FileInfo → ℤ → Scan S → Scan S
  scan_single entry_id info size st =
      expand_container_if_needed env entry_id info options
        (request_checksums env entry_id info options (
          note_unprobed_file env info size options
            (record st { files_scanned = suc st.files_scanned }))).1

  unfoldable pub after_single : FileInfo → EntryData → Result ℤ × Scan S → Result ℤ × Scan S
  unfolding scan_single
  after_single info entry (err e, st) = (err e, st)
  after_single info entry (ok entry_id, st) = (ok entry_id, scan_single entry_id info entry.size st)

  unfoldable pub scan_file_entry : ℤ → ℤ → FileInfo → Scan S → Result ℤ × Scan S
  unfolding file_entry_data after_single
  scan_file_entry source_id parent_id info st =
      let entry = file_entry_data source_id parent_id info in
      after_single info entry (
        stored (insert_entry env.db entry)
          (record st { total_size = add_found st.total_size info.file_size }))
