-- ===== src/FileService/Fs.antt =====
-- The file system store: FSFileHandler of
-- bouncer/src/repo/core/handler/fileservice/repo_file_handler_fs.{h,cpp}. A link is its path below the
-- root directory: the level names and the key. Random numbers, hashes and the outcomes of the writes are
-- those of an environment; directories that have to be created are not modelled.
pub mod Laws
use drepobouncer.Prelude.{
  ℕ, zero, suc, ◌+◌, ◌*◌, ◌-◌, ◌/◌, ◌%◌, Bool, true, false, ◌&&◌, List, [], ◌∷◌, Option, none, some,
  ltb, leb, ◌==◌, if◌then◌else◌,
}

pub record Link : Type 0 where
  pub levels : List ℕ
  pub key : ℕ

unfoldable pub same_levels : List ℕ → List ℕ → Bool
same_levels [] [] = true
same_levels [] (y ∷ ys) = false
same_levels (x ∷ xs) [] = false
same_levels (x ∷ xs) (y ∷ ys) = if x == y then same_levels xs ys else false

unfoldable pub same_link : Link → Link → Bool
unfolding same_levels
same_link a b = if a.key == b.key then same_levels a.levels b.levels else false

-- The contents of the regular files.
abbrev pub Disk : Type 0
Disk = Link → Option (List ℕ)

abbrev pub put : Link → Option (List ℕ) → Disk → Disk
put link contents disk l = if same_link link l then contents else disk l

-- One round of opening, writing and closing: all is written, or it failed and something is left.
pub data Attempt : Type 0 where
  written : Attempt
  failed : Option (List ℕ) → Attempt

pub record FsEnv : Type 0 where
  pub level : ℕ
  pub hash : ℕ → ℕ
  pub attempt : ℕ → Attempt
  pub removes : Bool

abbrev pub min_chunk_length : ℕ
min_chunk_length = 4

unfoldable pub name_chunk_len : ℕ → ℕ → ℕ
name_chunk_len level len =
    if ltb (len / level) min_chunk_length then min_chunk_length else len / level

abbrev pub prepend : ℕ → Option (List ℕ) → Option (List ℕ)
prepend n none = none
prepend n (some ns) = some (n ∷ ns)

-- The loop of determineHierachy from i on. `none` is the division by zero of
-- `% (name.length() - nameChunkLen)`, or the exception of substr.
unfoldable pub hierachy_from : (ℕ → ℕ) → ℕ → ℕ → ℕ → ℕ → Option (List ℕ)
hierachy_from hash len chunk i zero = some []
hierachy_from hash len chunk i (suc rounds) =
    if len == chunk
    then none
    else if ltb len i
    then none
    else prepend (hash i % 256) (hierachy_from hash len chunk (suc i) rounds)

-- determineHierachy of a name of this length
unfoldable pub determine_hierachy : FsEnv → ℕ → Option (List ℕ)
determine_hierachy env len = hierachy_from env.hash len (name_chunk_len env.level len) 0 env.level

-- The do-while loop of uploadFile, with the tries that are left.
unfoldable pub write_loop : FsEnv → ℕ → ℕ → Link → List ℕ → Disk → Bool × Disk
write_loop env zero i link bin disk = (false, disk)
write_loop env (suc left) i link bin disk = elim (env.attempt i) [
  | written ↦ (true, put link (some bin) disk)
  | failed rest ↦ write_loop env left (suc i) link bin (put link rest disk)
]

abbrev pub max_tries : ℕ
max_tries = 3

abbrev pub hierachy_of : FsEnv → ℕ → Option (List ℕ)
hierachy_of env len = if ltb 0 env.level then determine_hierachy env len else some []

unfoldable pub write_at : FsEnv → Link → List ℕ → Disk → Option Link × Disk
write_at env link bin disk =
    let (done, disk') = write_loop env max_tries 0 link bin disk in
    (if done then some link else none, disk')

-- uploadFile; the inner `none` is the empty string, the outer one a fault in determineHierachy
unfoldable pub upload_file : FsEnv → ℕ → ℕ → List ℕ → Disk → Option (Option Link × Disk)
upload_file env key len bin disk = elim (hierachy_of env len) [
  | none ↦ none
  | some levels ↦ some (write_at env (record { levels = levels; key = key }) bin disk)
]

-- deleteFile
unfoldable pub delete_file : FsEnv → Link → Disk → Bool × Disk
delete_file env link disk = elim (disk link) [
  | none ↦ (false, disk)
  | some contents ↦ if env.removes then (true, put link none disk) else (false, disk)
]

-- getFile
unfoldable pub get_file : Link → Disk → List ℕ
get_file link disk = elim (disk link) [ none ↦ [] | some contents ↦ contents ]
