-- ===== src/FileService/Blob/Reading.antt =====
-- What was inserted can be read back (repo_blob_files_handler.cpp).
use drepobouncer.Prelude.{ℕ, true, ◌≡◌, refl, ap, ◌∙◌, List, [], ◌∷◌, ◌++◌, none, some, arith}
use drepobouncer.Prelude.Map
use drepobouncer.Prelude.Map.{lookup-insert, lookup-nil}
use drepobouncer.FileService.Blob.{
  Env, DataRef, Handler, new_handler, commit_active_file, insert_all, finished, read_at, read_open,
  read_to_buffer,
}
use drepobouncer.FileService.Blob.Bounds.{grown, ref_to}
use drepobouncer.FileService.Blob.Holding.{
  Holds, read_at_lem, IsFresh, stored-upload_active, next_id-upload_active, Grows-of, Holds-grown,
  Holds-new,
}

-- Each reference stands for its binary.
abbrev pub AllHold : Handler → List DataRef → List (List ℕ) → Type 0
AllHold b [] [] = Unit
AllHold b [] (bytes ∷ binaries) = ⊥
AllHold b (ref ∷ refs) [] = ⊥
AllHold b (ref ∷ refs) (bytes ∷ binaries) = Holds b ref bytes × AllHold b refs binaries

-- A run of insertBinary returns, keeps what older references stand for, and each new reference
-- stands for its binary at the end of the run.
insert_all-Holds :
    (env : Env) (binaries : List (List ℕ)) (b : Handler)
    → IsFresh env b
    → (refs : List DataRef) × (b' : Handler) × (insert_all env binaries b ≡ some (refs, b'))
      × IsFresh env b'
      × AllHold b' refs binaries
      × ((ref : DataRef) (old : List ℕ) → Holds b ref old → Holds b' ref old)
unfolding insert_all
insert_all-Holds env [] b v = ([], b, refl, v, tt, λ ref old k. k)
insert_all-Holds env (bytes ∷ binaries) b v =
    let (f, b1, g, e) = Grows-of env bytes b v in
    let (refs, b2, es, v2, holds, keeps) =
      insert_all-Holds env binaries (grown f bytes b1) g.fresh in
    (
      ref_to f bytes ∷ refs,
      b2,
      ground (arith, e, es),
      v2,
      (keeps (ref_to f bytes) bytes (Holds-new env bytes b b1 f g), holds),
      λ ref old k. keeps ref old (Holds-grown env bytes old b b1 f ref g k),
    )

-- Reading a reference gives the binary.
abbrev pub AllRead : Handler → List DataRef → List (List ℕ) → Type 0
AllRead b [] [] = Unit
AllRead b [] (bytes ∷ binaries) = ⊥
AllRead b (ref ∷ refs) [] = ⊥
AllRead b (ref ∷ refs) (bytes ∷ binaries) =
    ((b' : Handler) × (read_to_buffer ref b ≡ some (bytes, b'))) × AllRead b refs binaries

read_to_buffer-stored :
    (ref : DataRef) (b : Handler) (c : List ℕ)
    → Map.lookup ref.file_name b.read_streams ≡ none
    → Map.lookup ref.file_name b.stored ≡ some c
    → read_to_buffer ref b
      ≡ some (read_at ref c, record b { read_streams = Map.insert ref.file_name c b.read_streams })
unfolding read_to_buffer read_open
read_to_buffer-stored ref b c e m = rw (e, read_to_buffer) (rw (m, read_open))

read_to_buffer-finished :
    (env : Env) (b : Handler) (ref : DataRef) (bytes : List ℕ)
    → IsFresh env b
    → Holds b ref bytes
    → (b' : Handler) × (read_to_buffer ref (finished env b) ≡ some (bytes, b'))
unfolding finished commit_active_file
read_to_buffer-finished env b ref bytes v k =
    let c = k.before ++ (bytes ++ k.after) in
    let b1 = finished env b in
    let unread : b1.read_streams ≡ [] = (next_id-upload_active env b.active_file b).1 ∙ v.unread in
    let stored : Map.lookup ref.file_name b1.stored ≡ some c =
      stored-upload_active env b.active_file b ref.file_name (v.uploaded b.next_upload) ∙ k.found in
    (
      record b1 { read_streams = Map.insert ref.file_name c b1.read_streams },
      read_to_buffer-stored ref b1 c
            (ap (Map.lookup ref.file_name) unread ∙ lookup-nil ref.file_name) stored
          ∙ ap
              (λ (x : List ℕ).
                some (x, record b1 { read_streams = Map.insert ref.file_name c b1.read_streams }))
              (read_at_lem ref k.before bytes k.after k.at k.sized),
    )

AllRead-finished :
    (env : Env) (b : Handler) (refs : List DataRef) (binaries : List (List ℕ))
    → IsFresh env b
    → AllHold b refs binaries
    → AllRead (finished env b) refs binaries
AllRead-finished env b [] [] v k = tt
AllRead-finished env b [] (bytes ∷ binaries) v k = k
AllRead-finished env b (ref ∷ refs) [] v k = k
AllRead-finished env b (ref ∷ refs) (bytes ∷ binaries) v k =
    (read_to_buffer-finished env b ref bytes v k.0, AllRead-finished env b refs binaries v k.1)

-- If createUUID never repeats an identifier and every upload succeeds, a run of insertBinary on a new
-- handler returns, and each reference, read right after finished, gives back exactly its binary,
-- however the binaries were spread over blob files.
pub insert_all-read :
    (env : Env) (binaries : List (List ℕ))
    → ((i j : ℕ) → env.created i ≡ env.created j → i ≡ j)
    → ((i : ℕ) → env.uploads i ≡ true)
    → (refs : List DataRef) × (b : Handler) × (insert_all env binaries new_handler ≡ some (refs, b))
      × AllRead (finished env b) refs binaries
insert_all-read env binaries distinct uploaded =
    let (refs, b, e, v, holds, keeps) = insert_all-Holds env binaries new_handler (record {
      distinct = distinct;
      uploaded = uploaded;
      unread = refl;
      used = λ name c e. absurd (cc (lookup-nil {V = List ℕ} name));
    }) in
    (refs, b, e, AllRead-finished env b refs binaries v holds)
