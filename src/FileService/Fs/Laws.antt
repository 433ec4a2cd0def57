-- ===== src/FileService/Fs/Laws.antt =====
-- Writes and paths of the file system store
-- (bouncer/src/repo/core/handler/fileservice/repo_file_handler_fs.cpp).
use drepobouncer.Prelude.{
  Bool-cases, if◌then◌else◌, ap, sym, ℕ, zero, suc, ◌+◌, ◌/◌, ◌%◌, ◌≤◌, ◌<◌, true, false, ◌≡◌, ◌≢◌,
  ◌⊎◌, ◌↔◌, ◌∙◌, refl, List, [], ◌∷◌, Option, none, some, length, All, arith, inl, inr,
}
use drepobouncer.FileService.Fs.{
  hierachy_of, upload_file, get_file, write_at, max_tries, Link, Disk, put, Attempt, written,
  failed, FsEnv, name_chunk_len, hierachy_from, determine_hierachy, write_loop, same_levels,
  same_link,
}

same_levels_refl : (xs : List ℕ) → same_levels xs xs ≡ true
unfolding same_levels
same_levels_refl [] = refl
same_levels_refl (x ∷ xs) = ground (arith, same_levels_refl xs)

pub same_link_refl : (l : Link) → same_link l l ≡ true
unfolding same_link
same_link_refl l = ground (arith, same_levels_refl l.levels)

-- The first of the tries that are left succeeds at some point.
pub data Succeeds (env : FsEnv) : ℕ → ℕ → Type 0 where
  now : {left i : ℕ} → env.attempt i ≡ written → Succeeds env (suc left) i
  later :
      {left i : ℕ} (rest : Option (List ℕ))
      → env.attempt i ≡ failed rest
      → Succeeds env left (suc i)
      → Succeeds env (suc left) i

tried :
    {env : FsEnv} {left i : ℕ} {rest : Option (List ℕ)}
    → env.attempt i ≡ failed rest
    → Succeeds env (suc left) i
    → Succeeds env left (suc i)
tried m (now e) = absurd (cc (m))
tried m (later rest e s) = s

Attempt-cases : (a : Attempt) → (a ≡ written) ⊎ ((rest : Option (List ℕ)) × (a ≡ failed rest))
Attempt-cases written = inl refl
Attempt-cases (failed rest) = inr (rest, refl)

-- The loop of uploadFile reports success exactly when one of the tries that are left succeeds, and
-- then the file has exactly the bytes; every other file is as before in either case.
pub write_loop_lem :
    (env : FsEnv) (left i : ℕ) (link l : Link) (bin : List ℕ) (disk : Disk)
    → (((write_loop env left i link bin disk).0 ≡ true) ↔ Succeeds env left i)
      × ((write_loop env left i link bin disk).0 ≡ true
          → (write_loop env left i link bin disk).1 link ≡ some bin)
      × (same_link link l ≡ false → (write_loop env left i link bin disk).1 l ≡ disk l)
unfolding write_loop
write_loop_lem env zero i link l bin disk =
    ((λ e. absurd (cc), λ s. absurd (none_left s)), λ e. absurd (cc), λ e. refl)
  where
    none_left : Succeeds env zero i → ⊥
    none_left s = elim s [ ]
write_loop_lem env (suc left) i link l bin disk = elim (Attempt-cases (env.attempt i)) [
  | inl m ↦ rw (m, write_loop) ((λ _. now m, λ _. refl), λ _. rw (same_link_refl link), λ d. rw d)
  | inr (rest, m) ↦
      let ih = write_loop_lem env left (suc i) link l bin (put link rest disk) in
      rw (m, write_loop)
        ((λ e. later rest m (ih.0.0 e), λ s. ih.0.1 (tried m s)), ih.1, λ d. ih.2 d ∙ rw d)
]

-- determineHierachy with one level divides by zero, whatever the name, if it has four characters.
pub determine_hierachy_one :
    (env : FsEnv) (len : ℕ) → env.level ≡ 1 → 4 ≤ len → determine_hierachy env len ≡ none
unfolding determine_hierachy name_chunk_len hierachy_from
determine_hierachy_one env len e h = rw (e, determine_hierachy) (ground arith)

hierachy_from_lem :
    (hash : ℕ → ℕ) (len chunk i rounds : ℕ)
    → len ≢ chunk
    → i + rounds ≤ suc len
    → (ns : List ℕ) × (hierachy_from hash len chunk i rounds ≡ some ns)
      × (length ns ≡ rounds)
      × All (λ n. n < 256) ns
unfolding hierachy_from
hierachy_from_lem hash len chunk i zero n h = ([], refl, refl, tt)
hierachy_from_lem hash len chunk i (suc rounds) n h =
    let (ns, e, l, b) = hierachy_from_lem hash len chunk (suc i) rounds n (omega arith) in
    (hash i % 256 ∷ ns, ground (arith, e), omega (arith, l), (omega arith, b))

div-lt : (len level : ℕ) → 2 ≤ level → 0 < len → len / level < len
div-lt len level h k = grind arith

-- determineHierachy with at least two levels, and no more than the name has characters, gives one
-- number below 256 for each level, if the name has more than four characters.
pub determine_hierachy_lem :
    (env : FsEnv) (len : ℕ)
    → 2 ≤ env.level
    → env.level ≤ len
    → 4 < len
    → (ns : List ℕ) × (determine_hierachy env len ≡ some ns)
      × (length ns ≡ env.level)
      × All (λ n. n < 256) ns
unfolding determine_hierachy name_chunk_len
determine_hierachy_lem env len two fits long =
    hierachy_from_lem env.hash len (name_chunk_len env.level len) 0 env.level
      (ground (arith, div-lt len env.level two (omega arith))) (omega arith)

write_at_lem :
    (env : FsEnv) (link : Link) (bin : List ℕ) (disk : Disk)
    → write_at env link bin disk ≡ (
      if (write_loop env max_tries 0 link bin disk).0 then some link else none,
      (write_loop env max_tries 0 link bin disk).1,
    )
unfolding write_at
write_at_lem env link bin disk = refl

-- uploadFile, if the levels of the path can be found, returns the link exactly when one of its three tries
-- succeeds, and getFile of the link then returns the bytes; it returns the empty string if all three
-- fail. Either way every other file is as before.
pub upload_file_lem :
    (env : FsEnv) (key len : ℕ) (bin : List ℕ) (disk : Disk) (l : Link) (levels : List ℕ)
    → hierachy_of env len ≡ some levels
    → let link : Link = record { levels = levels; key = key } in
      (disk' : Disk) × ((Succeeds env 3 0
          × (upload_file env key len bin disk ≡ some (some link, disk'))
          × (get_file link disk' ≡ bin))
        ⊎ ((¬ Succeeds env 3 0) × (upload_file env key len bin disk ≡ some (none, disk'))))
      × ((same_link link l ≡ true) ⊎ (disk' l ≡ disk l))
unfolding upload_file get_file write_loop
upload_file_lem env key len bin disk l levels h =
    let link : Link = record { levels = levels; key = key } in
    let r = write_loop env max_tries 0 link bin disk in
    let (succeeds, holds, others) = write_loop_lem env 3 0 link l bin disk in
    let done : upload_file env key len bin disk ≡ some (if r.0 then some link else none, r.1) =
      rw (h, upload_file) (ap some (write_at_lem env link bin disk)) in
    (
      r.1,
      elim (Bool-cases r.0) [
        | inl e ↦ inl (succeeds.0 e, done ∙ rw e refl, rw (holds e) refl)
        | inr e ↦ inr (λ s. cc (sym (succeeds.1 s) ∙ e), done ∙ rw e refl)
      ],
      elim (Bool-cases (same_link link l)) [ inl e ↦ inl e | inr e ↦ inr (others e) ],
    )
