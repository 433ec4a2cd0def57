-- ===== src/FileService/Manager/Uploading.antt =====
-- Storing and reading a file
-- (bouncer/src/repo/core/handler/fileservice/repo_file_manager.cpp).
use drepobouncer.Prelude.{
  ℕ, ◌%◌, ◌^◌, true, false, ◌≡◌, ◌≢◌, ◌⊎◌, refl, sym, ap, ◌∙◌, List, [], Option, none, some, arith,
  inl, inr, Bool-cases, Option-cases, length, ==_refl,
}
use drepobouncer.Prelude.Map
use drepobouncer.Prelude.Map.{lookup-insert, lookup-erase}
use drepobouncer.FileService.Fs.{
  FsEnv, Link, Disk, same_link, upload_file, write_at, write_loop, max_tries, hierachy_of,
  get_file as fs_get_file,
}
use drepobouncer.FileService.Fs.Laws.{write_loop_lem}
use drepobouncer.FileService.Manager.{
  RefType, fs, unknown, Ref, Encoding, plain, gzip, Env, Files, Uploaded, returned, encode,
  encoding_metadata, decode, upsert_file_ref, commit_link, upload_file_and_commit, get_file_ref,
  read_ref, get_file, returning,
}
use Prim.Native.String.{String}

-- Writing at a link: other files stay, and a link is returned only if the file has the bytes.
record Writes (link : Link) (bin : List ℕ) (disk : Disk) (r : Option Link × Disk) : Type 0 where
  others : (l : Link) → same_link link l ≡ false → r.1 l ≡ disk l
  result : (r.0 ≡ none) ⊎ ((r.0 ≡ some link) × (r.1 link ≡ some bin))

write_at-Writes :
    (env : FsEnv) (link : Link) (bin : List ℕ) (disk : Disk)
    → Writes link bin disk (write_at env link bin disk)
unfolding write_at
write_at-Writes env link bin disk = record {
  others = λ l d. (write_loop_lem env max_tries 0 link l bin disk).2 d;
  result = elim (Bool-cases (write_loop env max_tries 0 link bin disk).0) [
    | inl e ↦ inr (rw e, (write_loop_lem env max_tries 0 link link bin disk).1 e)
    | inr e ↦ inl (rw e)
  ];
}

-- uploadFile: a fault, or the result of writing at a link whose key is the given one.
upload_file_cases :
    (env : FsEnv) (key len : ℕ) (bin : List ℕ) (disk : Disk)
    → (upload_file env key len bin disk ≡ none)
      ⊎ ((link : Link) × (r : Option Link × Disk) × (link.key ≡ key)
          × Writes link bin disk r
          × (upload_file env key len bin disk ≡ some r))
unfolding upload_file
upload_file_cases env key len bin disk = elim (Option-cases (hierachy_of env len)) [
  | inl m ↦ inl (rw (m, upload_file))
  | inr (levels, m) ↦
      let link : Link = record { levels = levels; key = key } in
      inr (
        link,
        write_at env link bin disk,
        refl,
        write_at-Writes env link bin disk,
        rw (m, upload_file),
      )
]

-- No reference that is stored points to a file of this key.
abbrev pub KeyIsFresh : ℕ → Files → Type 0
KeyIsFresh key s = (id : ℕ) (r : Ref) → Map.lookup id s.refs ≡ some r → r.link.key ≢ key

differs : (a b : Link) → a.key ≢ b.key → same_link a b ≡ false
unfolding same_link
differs a b n = ground arith

same_link_sym : (a b : Link) → b.key ≢ a.key → same_link a b ≡ false
same_link_sym a b n = differs a b (λ e. n (sym e))

-- What uploadFileAndCommit does: it fails, and no reference changed, or it returns true, and there
-- is one new reference to a link of the new key below which the disk has the encoded bytes.
record Stores (env : Env) (id : ℕ) (contents : List ℕ) (s : Files) (r : Uploaded × Files)
    : Type 0 where
  others : (l : Link) → l.key ≢ env.key → r.1.disk l ≡ s.disk l
  result :
      ((r.0 ≢ returned true) × (r.1.refs ≡ s.refs))
      ⊎ ((r.0 ≡ returned true)
          × ((ref : Ref) × (r.1.refs ≡ Map.insert id ref s.refs)
              × (ref.type ≡ fs)
              × (ref.link.key ≡ env.key)
              × (r.1.disk ref.link ≡ some contents)))

commit_link-Stores :
    (env : Env) (id : ℕ) (contents : List ℕ) (metadata : List (String × String)) (s : Files)
    (link : Link) (o : Option Link) (disk : Disk)
    → link.key ≡ env.key
    → Writes link contents s.disk (o, disk)
    → Stores env id contents s
        (returning (commit_link env id o (length contents) metadata (record s { disk = disk })))
unfolding commit_link upsert_file_ref
commit_link-Stores env id contents metadata s link none disk k w = record {
  others = λ l n. w.others l (differs link l (λ e. n (sym e ∙ k)));
  result = inl (λ e. cc, refl);
}
commit_link-Stores env id contents metadata s link (some l') disk k w = elim w.result [
  | inl gone ↦ absurd (cc gone)
  | inr kept ↦ elim (Bool-cases env.upserts) [
    | inl up ↦ rw up (record {
      others = λ l n. w.others l (differs link l (λ e. n (sym e ∙ k)));
      result = inr (
        refl,
        (
          record {
            id = id;
            type = fs;
            link = l';
            size = length contents % 2 ^ 32;
            metadata = metadata;
          },
          refl,
          refl,
          ap Link.key (the_link kept.0) ∙ k,
          ap disk (the_link kept.0) ∙ kept.1,
        ),
      );
    })
    | inr down ↦ rw down (record {
      others = λ l n. w.others l (differs link l (λ e. n (sym e ∙ k)));
      result = inl (λ e. cc, refl);
    })
  ]
]
  where
    the_link : some l' ≡ some link → l' ≡ link
    the_link e = cc

upload_file_and_commit-Stores :
    (env : Env) (id : ℕ) (bin : List ℕ) (metadata : List (String × String)) (encoding : Encoding)
    (s : Files)
    → Stores env id
        (encode env encoding bin)
        s
        (upload_file_and_commit env id bin metadata encoding s)
unfolding upload_file_and_commit
upload_file_and_commit-Stores env id bin metadata encoding s =
    elim (upload_file_cases env.store env.key env.key_length (encode env encoding bin) s.disk) [
      | inl m ↦
          rw (m, upload_file_and_commit)
            (record { others = λ l n. refl; result = inl (λ e. cc, refl) })
      | inr (link, (o, disk), k, w, m) ↦
          rw (m, upload_file_and_commit)
            (commit_link-Stores env id (encode env encoding bin)
              (encoding_metadata encoding metadata) s link o disk k w)
    ]

decode-encode :
    (env : Env) (encoding : Encoding) (bin : List ℕ)
    → ((b : List ℕ) → env.decompress (env.compress b) ≡ b)
    → decode env encoding (encode env encoding bin) ≡ bin
unfolding decode encode
decode-encode env plain bin h = refl
decode-encode env gzip bin h = h bin

get_file-found :
    (env : Env) (id : ℕ) (encoding : Encoding) (s : Files) (ref : Ref) (bin : List ℕ)
    → Map.lookup id s.refs ≡ some ref
    → ref.type ≡ fs
    → s.disk ref.link ≡ some bin
    → get_file env id encoding s ≡ some (decode env encoding bin)
unfolding get_file get_file_ref read_ref fs_get_file
get_file-found env id encoding s ref bin e t d =
    rw (e, get_file) (rw (t, read_ref) (rw (d, fs_get_file)))

-- uploadFileAndCommit that returns true: getFile of that identifier with that encoding returns the
-- bytes, if the gzip filters are inverse to one another. If it does not return true, all references
-- are as before.
pub get_file-upload :
    (env : Env) (id : ℕ) (bin : List ℕ) (metadata : List (String × String)) (encoding : Encoding)
    (s : Files)
    → ((b : List ℕ) → env.decompress (env.compress b) ≡ b)
    → let r = upload_file_and_commit env id bin metadata encoding s in
      ((r.0 ≡ returned true) × (get_file env id encoding r.1 ≡ some bin))
      ⊎ ((r.0 ≢ returned true) × (r.1.refs ≡ s.refs))
get_file-upload env id bin metadata encoding s h =
    let r = upload_file_and_commit env id bin metadata encoding s in
    let w = upload_file_and_commit-Stores env id bin metadata encoding s in
    elim w.result [
      | inl failed ↦ inr failed
      | inr (done, (ref, m, t, k, d)) ↦ inl (
        done,
        get_file-found env id encoding r.1 ref (encode env encoding bin)
              (ap (Map.lookup id) m ∙ (rw lookup-insert (rw (==_refl id)))) t d
            ∙ ap some (decode-encode env encoding bin h),
      )
    ]

read_ref-same :
    (env : Env) (encoding : Encoding) (t : RefType) (link : Link) (disk disk' : Disk)
    → disk' link ≡ disk link
    → read_ref env encoding t link disk' ≡ read_ref env encoding t link disk
unfolding read_ref fs_get_file
read_ref-same env encoding fs link disk disk' e =
    ap (λ (o : Option (List ℕ)). decode env encoding (elim o [ none ↦ [] | some c ↦ c ])) e
read_ref-same env encoding unknown link disk disk' e = refl

get_file-same :
    (env : Env) (id : ℕ) (encoding : Encoding) (s s' : Files)
    → Map.lookup id s'.refs ≡ Map.lookup id s.refs
    → ((r : Ref) → Map.lookup id s.refs ≡ some r → s'.disk r.link ≡ s.disk r.link)
    → get_file env id encoding s' ≡ get_file env id encoding s
unfolding get_file get_file_ref read_ref fs_get_file
get_file-same env id encoding s s' e d = elim (Option-cases (Map.lookup id s.refs)) [
  | inl m ↦ rw (m, get_file) (rw (e ∙ m, get_file))
  | inr (r, m) ↦
      rw (m, get_file)
        (rw (e ∙ m, get_file)
          (ap some (read_ref-same env encoding r.type r.link s.disk s'.disk (d r m))))
]

-- uploadFileAndCommit under one identifier, whether it succeeds or not, does not change what getFile
-- returns for another, if the identifier of the new file is one that no stored link has.
pub get_file-upload_ne :
    (env : Env) (id j : ℕ) (bin : List ℕ) (metadata : List (String × String))
    (encoding encoding' : Encoding) (s : Files)
    → KeyIsFresh env.key s
    → id ≢ j
    → get_file env j encoding' (upload_file_and_commit env id bin metadata encoding s).1
      ≡ get_file env j encoding' s
get_file-upload_ne env id j bin metadata encoding encoding' s fresh n =
    let r = upload_file_and_commit env id bin metadata encoding s in
    let w = upload_file_and_commit-Stores env id bin metadata encoding s in
    get_file-same env j encoding' s r.1
      (elim w.result [
        | inl failed ↦ ap (Map.lookup j) failed.1
        | inr (done, (ref, m, t, k, d)) ↦
            ap (Map.lookup j) m ∙ ground (arith, lookup-insert id j ref s.refs)
      ])
      (λ x e. w.others x.link (fresh j x e))
