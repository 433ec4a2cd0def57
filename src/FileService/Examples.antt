-- ===== src/FileService/Examples.antt =====
-- The theorems on the file service at concrete inputs
-- (bouncer/src/repo/core/handler/fileservice).
use drepobouncer.Prelude.{
  zero, suc, ◌<◌, ℕ, ◌≡◌, ◌≢◌, ◌↔◌, ◌⊎◌, ◌+◌, ◌≤◌, refl, true, false, List, [], ◌∷◌, none, some,
  arith, length, All,
}
use drepobouncer.Prelude.Map
use drepobouncer.FileService.Blob
use drepobouncer.FileService.Blob.{
  Handler, FileEntry, DataRef, new_handler, insert_all, insert_binary, finished, commit_active_file,
}
use drepobouncer.FileService.Blob.Bounds.{insert_binary_bounds}
use drepobouncer.FileService.Blob.Reading.{AllRead, insert_all-read}
use drepobouncer.FileService.Fs.{
  FsEnv, Link, Disk, put, written, failed, upload_file, get_file as fs_get_file, determine_hierachy,
  same_link, hierachy_of, hierachy_from, name_chunk_len,
}
use drepobouncer.FileService.Fs.Laws.{Succeeds, upload_file_lem, determine_hierachy_lem}
use drepobouncer.FileService.Manager
use drepobouncer.FileService.Manager.{
  Files, Ref, fs, Encoding, plain, gzip, returned, upload_file_and_commit, get_file,
  delete_file_and_ref,
}
use drepobouncer.FileService.Manager.Uploading.{KeyIsFresh, get_file-upload, get_file-upload_ne}
use drepobouncer.FileService.Manager.Deleting.{IsDeletable, delete_file_and_ref_lem}

-- Files of at most four bytes.
abbrev small : Blob.Env
small = record { max_file_size_bytes = 4; created = λ i. i; uploads = λ i. true }

abbrev binaries : List (List ℕ)
binaries = (1 ∷ 2 ∷ 3 ∷ []) ∷ (4 ∷ 5 ∷ []) ∷ []

insert_all-read_example :
    (refs : List DataRef) × (b : Handler) × (insert_all small binaries new_handler ≡ some (refs, b))
    × AllRead (finished small b) refs binaries
insert_all-read_example = insert_all-read small binaries (λ i j e. e) (λ i. refl)

abbrev begun : Handler
begun = record new_handler {
  active_file = some (record { name = 0; buffer = 1 ∷ 2 ∷ 3 ∷ [] });
  next_id = 1;
}

insert_binary_bounds_example :
    (ref : DataRef) × (b' : Handler) × (f : FileEntry) × (insert_binary small (4 ∷ 5 ∷ []) begun
      ≡ some (ref, b'))
    × (b'.active_file ≡ some f)
    × (ref.file_name ≡ f.name)
    × (ref.size ≡ 2)
    × (ref.start_pos + ref.size ≡ length f.buffer)
    × ((length f.buffer ≤ 4) ⊎ (ref.start_pos ≡ 0))
insert_binary_bounds_example = insert_binary_bounds small (4 ∷ 5 ∷ []) begun

-- The second try succeeds.
abbrev shelf : FsEnv
shelf = record {
  level = 2;
  hash = λ i. 300 + i;
  attempt = λ i. elim i [ zero ↦ failed none | suc j ↦ written ];
  removes = true;
}

abbrev flat : FsEnv
flat = record shelf { level = 1 }

abbrev no_disk : Disk
no_disk link = none

shelf_levels : hierachy_of shelf 36 ≡ some (44 ∷ 45 ∷ [])
unfolding determine_hierachy hierachy_from name_chunk_len
shelf_levels = refl

abbrev place : Link
place = record { levels = 44 ∷ 45 ∷ []; key = 7 }

abbrev elsewhere : Link
elsewhere = record { levels = []; key = 8 }

upload_file_lem_example :
    (disk' : Disk) × ((Succeeds shelf 3 0
        × (upload_file shelf 7 36 (1 ∷ 2 ∷ []) no_disk ≡ some (some place, disk'))
        × (fs_get_file place disk' ≡ 1 ∷ 2 ∷ []))
      ⊎ ((¬ Succeeds shelf 3 0)
          × (upload_file shelf 7 36 (1 ∷ 2 ∷ []) no_disk ≡ some (none, disk'))))
    × ((same_link place elsewhere ≡ true) ⊎ (disk' elsewhere ≡ none))
upload_file_lem_example =
    upload_file_lem shelf 7 36 (1 ∷ 2 ∷ []) no_disk elsewhere (44 ∷ 45 ∷ []) shelf_levels

determine_hierachy_lem_example :
    (ns : List ℕ) × (determine_hierachy shelf 36 ≡ some ns)
    × (length ns ≡ 2)
    × All (λ n. n < 256) ns
determine_hierachy_lem_example =
    determine_hierachy_lem shelf 36 (omega arith) (omega arith) (omega arith)

-- A compression that puts a byte in front.
abbrev packed : List ℕ → List ℕ
packed b = 31 ∷ b

abbrev unpacked : List ℕ → List ℕ
unpacked [] = []
unpacked (x ∷ b) = b

abbrev env : Manager.Env
env = record {
  store = shelf;
  key = 7;
  key_length = 36;
  compress = packed;
  decompress = unpacked;
  upserts = true;
  drops = true;
}

abbrev old_ref : Ref
old_ref = record { id = 3; type = fs; link = elsewhere; size = 1; metadata = [] }

abbrev files : Files
files = record { disk = put elsewhere (some (9 ∷ [])) no_disk; refs = (3, old_ref) ∷ [] }

get_file-upload_example :
    (((upload_file_and_commit env 5 (1 ∷ 2 ∷ []) [] gzip files).0 ≡ returned true)
      × (get_file env 5 gzip (upload_file_and_commit env 5 (1 ∷ 2 ∷ []) [] gzip files).1
          ≡ some (1 ∷ 2 ∷ [])))
    ⊎ (((upload_file_and_commit env 5 (1 ∷ 2 ∷ []) [] gzip files).0 ≢ returned true)
        × ((upload_file_and_commit env 5 (1 ∷ 2 ∷ []) [] gzip files).1.refs ≡ files.refs))
get_file-upload_example = get_file-upload env 5 (1 ∷ 2 ∷ []) [] gzip files (λ b. refl)

key_7-KeyIsFresh : KeyIsFresh 7 files
unfolding Map.lookup
key_7-KeyIsFresh id r m = ground arith

get_file-upload_ne_example :
    get_file env 3 plain (upload_file_and_commit env 5 (1 ∷ 2 ∷ []) [] gzip files).1
    ≡ get_file env 3 plain files
get_file-upload_ne_example =
    get_file-upload_ne env 5 3 (1 ∷ 2 ∷ []) [] gzip plain files key_7-KeyIsFresh (omega arith)

delete_file_and_ref_lem_example :
    (((delete_file_and_ref env 3 files).0 ≡ true)
      ↔ IsDeletable env (Map.lookup 3 files.refs) files.disk)
    × ((((delete_file_and_ref env 3 files).0 ≡ true)
          × (Map.lookup 3 (delete_file_and_ref env 3 files).1.refs ≡ none))
        ⊎ (((delete_file_and_ref env 3 files).0 ≡ false)
            × ((delete_file_and_ref env 3 files).1.refs ≡ files.refs)))
delete_file_and_ref_lem_example = delete_file_and_ref_lem env 3 files
