-- ===== src/FileService/Blob.antt =====
-- Packing binaries into blob files: BlobFilesHandler of
-- bouncer/src/repo/core/handler/fileservice/repo_blob_files_handler.{h,cpp}, and DataRef. File names are
-- numbers; the supply of fresh identifiers and the outcomes of the uploads are those of an
-- environment. A byte is a number.
pub mod Bounds
pub mod Holding
pub mod Reading
use drepobouncer.Prelude.{
  ℕ, zero, suc, ◌+◌, Bool, true, false, List, [], ◌∷◌, ◌++◌, Option, none, some, ltb, if◌then◌else◌,
  length, take, drop, replicate,
}
use drepobouncer.Prelude.Map
use drepobouncer.Prelude.Map.{Map}

-- `created i` is the i-th identifier that createUUID makes, `uploads i` whether the i-th call of
-- uploadFileAndCommit stores the file and its reference.
pub record Env : Type 0 where
  pub max_file_size_bytes : ℕ
  pub created : ℕ → ℕ
  pub uploads : ℕ → Bool

pub record FileEntry : Type 0 where
  pub name : ℕ
  pub buffer : List ℕ

pub record DataRef : Type 0 where
  pub file_name : ℕ
  pub start_pos : ℕ
  pub size : ℕ

-- `stored` is what the file manager has under the handler's database and collection; `read_streams`
-- the streams that were opened, as the contents that they read from.
pub record Handler : Type 0 where
  pub active_file : Option FileEntry
  pub read_streams : Map (List ℕ)
  pub stored : Map (List ℕ)
  pub next_id : ℕ
  pub next_upload : ℕ

abbrev pub new_handler : Handler
new_handler = record {
  active_file = none;
  read_streams = [];
  stored = [];
  next_id = 0;
  next_upload = 0;
}

-- manager->uploadFileAndCommit, whose result the handler does not read
unfoldable pub upload : Env → FileEntry → Handler → Handler
upload env f b = record b {
  stored = if env.uploads b.next_upload then Map.insert f.name f.buffer b.stored else b.stored;
  next_upload = suc b.next_upload;
}

unfoldable pub upload_active : Env → Option FileEntry → Handler → Handler
upload_active env none b = b
upload_active env (some f) b = upload env f b

-- commitActiveFile
unfoldable pub commit_active_file : Env → Handler → Handler
commit_active_file env b = record (upload_active env b.active_file b) { active_file = none }

-- newActiveFile
unfoldable pub new_active_file : Env → Handler → Handler
new_active_file env b = record (commit_active_file env b) {
  active_file = some (record { name = env.created b.next_id; buffer = [] });
  next_id = suc b.next_id;
}

-- The test of insertBinary.
unfoldable pub needs_file : Env → Option FileEntry → List ℕ → Bool
needs_file env none bytes = true
needs_file env (some f) bytes = ltb env.max_file_size_bytes (length f.buffer + length bytes)

-- The rest of insertBinary: resize, copy, and the reference. There is an active file by then.
unfoldable pub append_binary : Option FileEntry → List ℕ → Handler → Option (DataRef × Handler)
append_binary none bytes b = none
append_binary (some f) bytes b = some (
  record { file_name = f.name; start_pos = length f.buffer; size = length bytes },
  record b { active_file = some (record f { buffer = f.buffer ++ bytes }) },
)

abbrev pub ready : Env → List ℕ → Handler → Handler
ready env bytes b = if needs_file env b.active_file bytes then new_active_file env b else b

-- insertBinary; `none` would be a null pointer
unfoldable pub insert_binary : Env → List ℕ → Handler → Option (DataRef × Handler)
insert_binary env bytes b = append_binary (ready env bytes b).active_file bytes (ready env bytes b)

-- finished, and the destructor's first step
unfoldable pub finished : Env → Handler → Handler
finished env b = commit_active_file env b

-- resize, seekg and read: what lies past the end of the stream stays zero.
unfoldable pub read_at : DataRef → List ℕ → List ℕ
read_at ref contents =
    let got = take ref.size (drop ref.start_pos contents) in
    take ref.size (got ++ replicate ref.size 0)

unfoldable pub read_open : DataRef → Option (List ℕ) → Handler → Option (List ℕ × Handler)
read_open ref none b = none
read_open ref (some contents) b = some (
  read_at ref contents,
  record b { read_streams = Map.insert ref.file_name contents b.read_streams },
)

-- readToBuffer; `none` is RepoRefMissingException
unfoldable pub read_to_buffer : DataRef → Handler → Option (List ℕ × Handler)
read_to_buffer ref b = elim (Map.lookup ref.file_name b.read_streams) [
  | some contents ↦ some (read_at ref contents, b)
  | none ↦ read_open ref (Map.lookup ref.file_name b.stored) b
]

-- A run of insertBinary over several binaries: the references in order.
unfoldable pub insert_all : Env → List (List ℕ) → Handler → Option (List DataRef × Handler)
insert_all env [] b = some ([], b)
insert_all env (bytes ∷ rest) b = elim (insert_binary env bytes b) [
  | none ↦ none
  | some (ref, b') ↦ elim (insert_all env rest b') [
    | none ↦ none
    | some (refs, b'') ↦ some (ref ∷ refs, b'')
  ]
]
