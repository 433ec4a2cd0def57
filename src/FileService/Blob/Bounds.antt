-- ===== src/FileService/Blob/Bounds.antt =====
-- The size of the blob files and the shape of the references
-- (bouncer/src/repo/core/handler/fileservice/repo_blob_files_handler.cpp).
use drepobouncer.Prelude.{
  ℕ, ◌+◌, ◌≤◌, true, false, ◌≡◌, ◌⊎◌, refl, sym, ap, List, [], ◌++◌, some, length, arith, inl, inr,
  Bool-cases, Option-cases, length-append,
}
use drepobouncer.FileService.Blob.{
  Env, FileEntry, DataRef, Handler, new_active_file, needs_file, append_binary, insert_binary,
}

abbrev pub begun : Env → Handler → FileEntry
begun env b = record { name = env.created b.next_id; buffer = [] }

-- The file that the bytes go to, and the handler as it is then: the active file where they fit, or a
-- new one.
abbrev pub Place : Env → List ℕ → Handler → FileEntry → Handler → Type 0
Place env bytes b f b' =
    ((b.active_file ≡ some f)
      × (b' ≡ b)
      × (length f.buffer + length bytes ≤ env.max_file_size_bytes))
    ⊎ ((f ≡ begun env b) × (b' ≡ new_active_file env b))

abbrev pub ref_to : FileEntry → List ℕ → DataRef
ref_to f bytes = record { file_name = f.name; start_pos = length f.buffer; size = length bytes }

abbrev pub grown : FileEntry → List ℕ → Handler → Handler
grown f bytes b = record b { active_file = some (record f { buffer = f.buffer ++ bytes }) }

insert_binary_new :
    (env : Env) (bytes : List ℕ) (b : Handler)
    → needs_file env b.active_file bytes ≡ true
    → insert_binary env bytes b
      ≡ some (ref_to (begun env b) bytes, grown (begun env b) bytes (new_active_file env b))
unfolding insert_binary append_binary new_active_file
insert_binary_new env bytes b e = rw (e, insert_binary)

insert_binary_old :
    (env : Env) (bytes : List ℕ) (b : Handler) (f : FileEntry)
    → b.active_file ≡ some f
    → needs_file env b.active_file bytes ≡ false
    → insert_binary env bytes b ≡ some (ref_to f bytes, grown f bytes b)
unfolding insert_binary append_binary
insert_binary_old env bytes b f m e = rw (e, insert_binary) (rw (m, append_binary))

pub insert_binary-Place :
    (env : Env) (bytes : List ℕ) (b : Handler)
    → (f : FileEntry) × (b' : Handler) × Place env bytes b f b'
      × (insert_binary env bytes b ≡ some (ref_to f bytes, grown f bytes b'))
unfolding needs_file
insert_binary-Place env bytes b = elim (Bool-cases (needs_file env b.active_file bytes)) [
  | inl new ↦
      (begun env b, new_active_file env b, inr (refl, refl), insert_binary_new env bytes b new)
  | inr old ↦ elim (Option-cases b.active_file) [
    | inl m ↦ absurd (ground (arith, m, old))
    | inr (f, m) ↦
        (f, b, inl (m, refl, ground (arith, m, old)), insert_binary_old env bytes b f m old)
  ]
]

-- insertBinary always returns a reference to the active file, of the size of the binary, that ends
-- where the file ends; and the file is within the limit unless the binary stands at its start.
pub insert_binary_bounds :
    (env : Env) (bytes : List ℕ) (b : Handler)
    → (ref : DataRef) × (b' : Handler) × (f : FileEntry) × (insert_binary env bytes b
        ≡ some (ref, b'))
      × (b'.active_file ≡ some f)
      × (ref.file_name ≡ f.name)
      × (ref.size ≡ length bytes)
      × (ref.start_pos + ref.size ≡ length f.buffer)
      × ((length f.buffer ≤ env.max_file_size_bytes) ⊎ (ref.start_pos ≡ 0))
insert_binary_bounds env bytes b =
    let (f, b', place, e) = insert_binary-Place env bytes b in
    (
      ref_to f bytes,
      grown f bytes b',
      record f { buffer = f.buffer ++ bytes },
      e,
      refl,
      refl,
      refl,
      sym (length-append f.buffer bytes),
      elim place [
        | inl p ↦ inl (omega (arith, p.2, length-append f.buffer bytes))
        | inr p ↦ inr (ap (λ (x : FileEntry). length x.buffer) p.0)
      ],
    )
