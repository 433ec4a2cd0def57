-- ===== src/FileService/Blob/Holding.antt =====
-- What insertBinary does to the contents of the files
-- (bouncer/src/repo/core/handler/fileservice/repo_blob_files_handler.cpp).
use drepobouncer.Prelude.{
  ℕ, ◌<◌, true, ◌≡◌, ◌⊎◌, refl, sym, ap, ap₂, append-nil, ◌∙◌, List, [], ◌++◌, Option, none, some,
  ◌==◌, if◌then◌else◌, length, replicate, arith, inl, inr, Bool-cases, Option-cases, ==_iff,
  ==_refl, append_assoc, take-length-append, drop-length-append,
}
use drepobouncer.Prelude.Map
use drepobouncer.Prelude.Map.{lookup-insert, lookup-nil}
use drepobouncer.FileService.Blob.{
  Env, FileEntry, DataRef, Handler, upload, upload_active, commit_active_file, new_active_file,
  insert_binary, read_at,
}
use drepobouncer.FileService.Blob.Bounds.{begun, grown, ref_to, insert_binary-Place}

abbrev pub contents_at : Option FileEntry → Map.Map (List ℕ) → ℕ → Option (List ℕ)
contents_at none stored name = Map.lookup name stored
contents_at (some f) stored name = if f.name == name then some f.buffer else Map.lookup name stored

-- The contents of a file, whether it is still active or stored.
abbrev pub contents_of : Handler → ℕ → Option (List ℕ)
contents_of b = contents_at b.active_file b.stored

-- The reference stands for these bytes: they are what the file has at its place.
pub record Holds (b : Handler) (ref : DataRef) (bytes : List ℕ) : Type 0 where
  pub before : List ℕ
  pub after : List ℕ
  pub found : contents_of b ref.file_name ≡ some (before ++ (bytes ++ after))
  pub at : ref.start_pos ≡ length before
  pub sized : ref.size ≡ length bytes

pub read_at_lem :
    (ref : DataRef) (before bytes after : List ℕ)
    → ref.start_pos ≡ length before
    → ref.size ≡ length bytes
    → read_at ref (before ++ (bytes ++ after)) ≡ bytes
unfolding read_at
read_at_lem ref before bytes after p q =
    rw (p, q, drop-length-append before (bytes ++ after), take-length-append bytes after)
      (take-length-append bytes (replicate (length bytes) 0))

-- Identifiers are used once, every upload succeeds, and no stream was opened yet.
pub record IsFresh (env : Env) (b : Handler) : Type 0 where
  pub distinct : (i j : ℕ) → env.created i ≡ env.created j → i ≡ j
  pub uploaded : (i : ℕ) → env.uploads i ≡ true
  pub unread : b.read_streams ≡ []
  pub used :
      (name : ℕ) (c : List ℕ)
      → contents_of b name ≡ some c
      → (i : ℕ) × (i < b.next_id) × (name ≡ env.created i)

pub stored-upload_active :
    (env : Env) (active : Option FileEntry) (b : Handler) (name : ℕ)
    → env.uploads b.next_upload ≡ true
    → Map.lookup name (upload_active env active b).stored ≡ contents_at active b.stored name
unfolding upload_active upload
stored-upload_active env none b name e = refl
stored-upload_active env (some f) b name e = rw e (lookup-insert f.name name f.buffer b.stored)

pub next_id-upload_active :
    (env : Env) (active : Option FileEntry) (b : Handler)
    → ((upload_active env active b).next_id ≡ b.next_id)
      × ((upload_active env active b).read_streams ≡ b.read_streams)
unfolding upload_active upload
next_id-upload_active env none b = (refl, refl)
next_id-upload_active env (some f) b = (refl, refl)

-- What insertBinary does to the contents: one file grows, and it was that long or not there.
pub record Grows (env : Env) (bytes : List ℕ) (b : Handler) (f : FileEntry) (b' : Handler)
    : Type 0 where
  pub after :
      (name : ℕ)
      → contents_of (grown f bytes b') name
        ≡ (if f.name == name then some (f.buffer ++ bytes) else contents_of b name)
  pub before : (contents_of b f.name ≡ some f.buffer) ⊎ (contents_of b f.name ≡ none)
  pub fresh : IsFresh env (grown f bytes b')

unused : (env : Env) (b : Handler) → IsFresh env b → contents_of b (env.created b.next_id) ≡ none
unused env b v = elim (Option-cases (contents_of b (env.created b.next_id))) [
  | inl e ↦ e
  | inr (c, e) ↦
      let (i, lt, same) = v.used (env.created b.next_id) c e in
      absurd (omega (arith, v.distinct b.next_id i same))
]

old-Grows :
    (env : Env) (bytes : List ℕ) (b : Handler) (f : FileEntry)
    → IsFresh env b
    → b.active_file ≡ some f
    → Grows env bytes b f b
old-Grows env bytes b f v m = record {
  after = λ name. rw m (ground arith);
  before = inl (rw m (ground arith));
  fresh = record {
    distinct = v.distinct;
    uploaded = v.uploaded;
    unread = v.unread;
    used = λ name c e. elim (Bool-cases (f.name == name)) [
      | inl s ↦ v.used name f.buffer (rw m (ground (arith, s)))
      | inr s ↦ v.used name c (rw m (ground (arith, s, e)))
    ];
  };
}

new-Grows :
    (env : Env) (bytes : List ℕ) (b : Handler)
    → IsFresh env b
    → Grows env bytes b (begun env b) (new_active_file env b)
unfolding new_active_file commit_active_file
new-Grows env bytes b v = record {
  after = λ name. rw (stored-upload_active env b.active_file b name (v.uploaded b.next_upload));
  before = inr (unused env b v);
  fresh = record {
    distinct = v.distinct;
    uploaded = v.uploaded;
    unread = (next_id-upload_active env b.active_file b).1 ∙ v.unread;
    used = λ name c e. elim (Bool-cases (env.created b.next_id == name)) [
      | inl s ↦ (b.next_id, omega arith, sym ((==_iff (env.created b.next_id) name).0 s))
      | inr s ↦
          let (i, lt, same) = v.used name c (
            sym (stored-upload_active env b.active_file b name (v.uploaded b.next_upload))
            ∙ (rw s at e)) in
          (i, omega arith, same)
    ];
  };
}

pub Grows-of :
    (env : Env) (bytes : List ℕ) (b : Handler)
    → IsFresh env b
    → (f : FileEntry) × (b' : Handler) × Grows env bytes b f b'
      × (insert_binary env bytes b ≡ some (ref_to f bytes, grown f bytes b'))
Grows-of env bytes b v =
    let (f, b', place, e) = insert_binary-Place env bytes b in
    elim place [
      | inl p ↦ (
        f,
        b,
        old-Grows env bytes b f v p.0,
        e ∙ ap (λ (x : Handler). some (ref_to f bytes, grown f bytes x)) p.1,
      )
      | inr p ↦ (
        begun env b,
        new_active_file env b,
        new-Grows env bytes b v,
        e ∙ ap₂ (λ (x : FileEntry) (y : Handler). some (ref_to x bytes, grown x bytes y)) p.0 p.1,
      )
    ]

pub Holds-grown :
    (env : Env) (bytes old : List ℕ) (b b' : Handler) (f : FileEntry) (ref : DataRef)
    → Grows env bytes b f b'
    → Holds b ref old
    → Holds (grown f bytes b') ref old
Holds-grown env bytes old b b' f ref g k = elim (Bool-cases (f.name == ref.file_name)) [
  | inl s ↦ elim g.before [
    | inl m ↦ record {
      before = k.before;
      after = k.after ++ bytes;
      found =
          g.after ref.file_name
          ∙ rw s (
              ap some (
                ap (λ (x : List ℕ). x ++ bytes) (same s m)
                ∙ append_assoc k.before (old ++ k.after) bytes
                ∙ ap (λ (x : List ℕ). k.before ++ x) (append_assoc old k.after bytes)));
      at = k.at;
      sized = k.sized;
    }
    | inr m ↦ absurd (missing s m)
  ]
  | inr s ↦ record {
    before = k.before;
    after = k.after;
    found = g.after ref.file_name ∙ rw s k.found;
    at = k.at;
    sized = k.sized;
  }
]
  where
    name : (f.name == ref.file_name) ≡ true → f.name ≡ ref.file_name
    name s = (==_iff f.name ref.file_name).0 s

    same :
        (f.name == ref.file_name) ≡ true
        → contents_of b f.name ≡ some f.buffer
        → f.buffer ≡ k.before ++ (old ++ k.after)
    same s m = cc (sym m ∙ ap (contents_of b) (name s) ∙ k.found)

    missing : (f.name == ref.file_name) ≡ true → contents_of b f.name ≡ none → ⊥
    missing s m = cc (sym m ∙ ap (contents_of b) (name s) ∙ k.found)

pub Holds-new :
    (env : Env) (bytes : List ℕ) (b b' : Handler) (f : FileEntry)
    → Grows env bytes b f b'
    → Holds (grown f bytes b') (ref_to f bytes) bytes
Holds-new env bytes b b' f g = record {
  before = f.buffer;
  after = [];
  found = g.after f.name ∙ rw (==_refl f.name, append-nil bytes);
  at = refl;
  sized = refl;
}
