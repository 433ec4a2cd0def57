-- ===== src/FileService/Manager.antt =====
-- Files and their references: FileManager of
-- bouncer/src/repo/core/handler/fileservice/repo_file_manager.{h,cpp} over the file system store and the
-- reference collection (RepoRef of bouncer/src/repo/core/model/bson/repo_bson_ref.{h,cpp}). The database
-- handler and the gzip filters are parameters. Identifiers are the string kind, as numbers.
pub mod Uploading
pub mod Deleting
use drepobouncer.Prelude.{
  ℕ, ◌%◌, ◌^◌, Bool, true, false, List, [], ◌∷◌, Option, none, some, if◌then◌else◌, length,
}
use drepobouncer.Prelude.Map
use drepobouncer.Prelude.Map.{Map}
use drepobouncer.FileService.Fs.{
  FsEnv, Link, Disk, upload_file, delete_file, get_file as fs_get_file,
}
use Prim.Native.String.{String}
use text.Mathlib.Text.{◌==◌ as str_eq}

pub data RefType : Type 0 where
  fs unknown : RefType

pub record Ref : Type 0 where
  pub id : ℕ
  pub type : RefType
  pub link : Link
  pub size : ℕ
  pub metadata : List (String × String)

pub data Encoding : Type 0 where
  plain gzip : Encoding

-- `key` is the identifier made by createUUID and `key_length` the length of its text; `upserts` and
-- `drops` say whether the call of the database handler returns rather than throws a RepoException.
-- An exception of the gzip filters, on data that is not gzip data, is not modelled.
pub record Env : Type 0 where
  pub store : FsEnv
  pub key : ℕ
  pub key_length : ℕ
  pub compress : List ℕ → List ℕ
  pub decompress : List ℕ → List ℕ
  pub upserts : Bool
  pub drops : Bool

-- The disk, and the collection of references of one database and prefix.
pub record Files : Type 0 where
  pub disk : Disk
  pub refs : Map Ref

-- `faulted` stands for RepoFileUploadException, and for the end of the process by a division by zero
-- in determineHierachy.
pub data Uploaded : Type 0 where
  returned : Bool → Uploaded
  faulted : Uploaded

unfoldable pub set_metadata : String → String → List (String × String) → List (String × String)
set_metadata k v [] = (k, v) ∷ []
set_metadata k v ((j, w) ∷ m) = if str_eq j k then (k, v) ∷ m else (j, w) ∷ set_metadata k v m

unfoldable pub encode : Env → Encoding → List ℕ → List ℕ
encode env plain bin = bin
encode env gzip bin = env.compress bin

unfoldable pub encoding_metadata : Encoding → List (String × String) → List (String × String)
encoding_metadata plain m = m
encoding_metadata gzip m = set_metadata "encoding" "gzip" m

-- upsertFileRef and makeRefNode. The size is passed as a uint32_t.
unfoldable pub upsert_file_ref : Env → ℕ → Link → ℕ → List (String × String) → Files → Bool × Files
upsert_file_ref env id link size metadata s =
    if env.upserts
    then (
      true,
      record s {
        refs =
            Map.insert id
              (record {
                id = id;
                type = fs;
                link = link;
                size = size % 2 ^ 32;
                metadata = metadata;
              })
              s.refs;
      },
    )
    else (false, s)

-- The part of uploadFileAndCommit behind the upload.
unfoldable pub commit_link :
    Env → ℕ → Option Link → ℕ → List (String × String) → Files → Bool × Files
commit_link env id none size metadata s = (false, s)
commit_link env id (some link) size metadata s = upsert_file_ref env id link size metadata s

abbrev pub returning : Bool × Files → Uploaded × Files
returning (b, s) = (returned b, s)

-- uploadFileAndCommit
unfoldable pub upload_file_and_commit :
    Env → ℕ → List ℕ → List (String × String) → Encoding → Files → Uploaded × Files
upload_file_and_commit env id bin metadata encoding s =
    let contents = encode env encoding bin in
    elim (upload_file env.store env.key env.key_length contents s.disk) [
      | none ↦ (faulted, s)
      | some (link, disk) ↦ returning (
          commit_link env id link (length contents) (encoding_metadata encoding metadata)
            (record s { disk = disk }))
    ]

-- getFileRef; `none` is RepoRefMissingException
unfoldable pub get_file_ref : ℕ → Files → Option Ref
get_file_ref id s = Map.lookup id s.refs

unfoldable pub decode : Env → Encoding → List ℕ → List ℕ
decode env plain bin = bin
decode env gzip bin = env.decompress bin

unfoldable pub read_ref : Env → Encoding → RefType → Link → Disk → List ℕ
read_ref env encoding fs link disk = decode env encoding (fs_get_file link disk)
read_ref env encoding unknown link disk = []

-- getFile
unfoldable pub get_file : Env → ℕ → Encoding → Files → Option (List ℕ)
get_file env id encoding s = elim (get_file_ref id s) [
  | none ↦ none
  | some ref ↦ some (read_ref env encoding ref.type ref.link s.disk)
]

-- dropFileRef
unfoldable pub drop_file_ref : Env → ℕ → Files → Bool × Files
drop_file_ref env id s =
    if env.drops then (true, record s { refs = Map.erase id s.refs }) else (false, s)

abbrev pub then_drop : Env → ℕ → Bool → Files → Bool × Files
then_drop env id true s = drop_file_ref env id s
then_drop env id false s = (false, s)

unfoldable pub delete_by_type : Env → ℕ → RefType → Link → Files → Bool × Files
delete_by_type env id unknown link s = (false, s)
delete_by_type env id fs link s =
    let (done, disk) = delete_file env.store link s.disk in
    then_drop env id done (record s { disk = disk })

-- deleteFileAndRef
unfoldable pub delete_file_and_ref : Env → ℕ → Files → Bool × Files
delete_file_and_ref env id s = elim (get_file_ref id s) [
  | none ↦ (false, s)
  | some ref ↦ delete_by_type env id ref.type ref.link s
]
