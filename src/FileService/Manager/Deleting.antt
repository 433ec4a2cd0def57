-- ===== src/FileService/Manager/Deleting.antt =====
-- Deleting a file and its reference
-- (bouncer/src/repo/core/handler/fileservice/repo_file_manager.cpp).
use drepobouncer.Prelude.{
  ℕ, Bool, true, false, ◌≡◌, ◌⊎◌, ◌↔◌, refl, sym, ◌∙◌, List, Option, none, some, arith, inl, inr,
  Bool-cases, Option-cases,
}
use drepobouncer.Prelude.Map
use drepobouncer.Prelude.Map.{lookup-insert, lookup-erase}
use drepobouncer.FileService.Fs.{Link, Disk, put, delete_file}
use drepobouncer.FileService.Manager.{
  RefType, fs, unknown, Ref, Env, Files, get_file_ref, drop_file_ref, delete_by_type,
  delete_file_and_ref,
}

-- The reference is there and of the file system kind, its file is there, and both removals succeed.
abbrev pub IsDeletable : Env → Option Ref → Disk → Type 0
IsDeletable env found disk =
    (ref : Ref) × (found ≡ some ref)
    × (ref.type ≡ fs)
    × ((bin : List ℕ) × (disk ref.link ≡ some bin))
    × (env.store.removes ≡ true)
    × (env.drops ≡ true)

-- What the result of deleteFileAndRef says.
abbrev DeletesIf : Env → ℕ → Files → Bool × Files → Type 0
DeletesIf env id s r =
    ((r.0 ≡ true) ↔ IsDeletable env (Map.lookup id s.refs) s.disk)
    × (r.0 ≡ true → Map.lookup id r.1.refs ≡ none)
    × (r.0 ≡ false → r.1.refs ≡ s.refs)

-- The four ways through the deletion of a file of the file system kind.
delete_missing :
    (env : Env) (id : ℕ) (link : Link) (s : Files)
    → s.disk link ≡ none
    → delete_by_type env id fs link s ≡ (false, s)
unfolding delete_by_type delete_file
delete_missing env id link s d = ground (arith, d)

delete_refused :
    (env : Env) (id : ℕ) (link : Link) (s : Files) (bin : List ℕ)
    → s.disk link ≡ some bin
    → env.store.removes ≡ false
    → delete_by_type env id fs link s ≡ (false, s)
unfolding delete_by_type delete_file
delete_refused env id link s bin d p = ground (arith, d, p)

delete_removed :
    (env : Env) (id : ℕ) (link : Link) (s : Files) (bin : List ℕ)
    → s.disk link ≡ some bin
    → env.store.removes ≡ true
    → delete_by_type env id fs link s
      ≡ drop_file_ref env id (record s { disk = put link none s.disk })
unfolding delete_by_type delete_file
delete_removed env id link s bin d p = rw (d, delete_by_type, delete_file) (rw p)

DeletesIf-false :
    (env : Env) (id : ℕ) (s : Files) (r : Bool × Files)
    → ¬ IsDeletable env (Map.lookup id s.refs) s.disk
    → r.0 ≡ false
    → r.1.refs ≡ s.refs
    → DeletesIf env id s r
DeletesIf-false env id s r n e same =
    ((λ x. absurd (cc (sym x ∙ e)), λ x. absurd (n x)), λ x. absurd (cc (sym x ∙ e)), λ x. same)

delete_by_type-DeletesIf :
    (env : Env) (id : ℕ) (s : Files) (ref : Ref) (t : RefType)
    → Map.lookup id s.refs ≡ some ref
    → ref.type ≡ t
    → DeletesIf env id s (delete_by_type env id t ref.link s)
unfolding delete_by_type drop_file_ref
delete_by_type-DeletesIf env id s ref unknown m e =
    DeletesIf-false env id s (false, s) (λ x. ground (arith, m, e, x.1, x.2)) refl refl
delete_by_type-DeletesIf env id s ref fs m e = elim (Option-cases (s.disk ref.link)) [
  | inl d ↦
      rw (delete_missing env id ref.link s d)
        (DeletesIf-false env id s (false, s) (λ x. ground (arith, m, x.1, x.3.1, d)) refl refl)
  | inr (bin, d) ↦ elim (Bool-cases env.store.removes) [
    | inl p ↦ rw (delete_removed env id ref.link s bin d p) (elim (Bool-cases env.drops) [
      | inl q ↦ rw q (
        (λ x. (ref, m, e, (bin, d), p, refl), λ x. refl),
        λ x. ground (arith, lookup-erase id id s.refs),
        λ x. absurd (cc x),
      )
      | inr q ↦ rw q ((λ x. absurd (cc x), λ x. absurd (cc x.5)), λ x. absurd (cc x), λ x. refl)
    ])
    | inr p ↦
        rw (delete_refused env id ref.link s bin d p)
          (DeletesIf-false env id s (false, s) (λ x. cc (sym x.4 ∙ p)) refl refl)
  ]
]

delete_file_and_ref-DeletesIf :
    (env : Env) (id : ℕ) (s : Files) → DeletesIf env id s (delete_file_and_ref env id s)
unfolding delete_file_and_ref get_file_ref
delete_file_and_ref-DeletesIf env id s = elim (Option-cases (Map.lookup id s.refs)) [
  | inl m ↦ rw (missing m) (DeletesIf-false env id s (false, s) (λ x. cc (sym m ∙ x.1)) refl refl)
  | inr (ref, m) ↦ rw (found ref m) (delete_by_type-DeletesIf env id s ref ref.type m refl)
]
  where
    missing : Map.lookup id s.refs ≡ none → delete_file_and_ref env id s ≡ (false, s)
    missing m = rw (m, delete_file_and_ref)

    found :
        (ref : Ref)
        → Map.lookup id s.refs ≡ some ref
        → delete_file_and_ref env id s ≡ delete_by_type env id ref.type ref.link s
    found ref m = rw (m, delete_file_and_ref)

-- deleteFileAndRef returns true exactly when the reference is there and of the file system kind, its
-- file is there, and both removals succeed; then the reference is gone. Whenever it returns false
-- the references are as before.
pub delete_file_and_ref_lem :
    (env : Env) (id : ℕ) (s : Files)
    → let r = delete_file_and_ref env id s in
      ((r.0 ≡ true) ↔ IsDeletable env (Map.lookup id s.refs) s.disk)
      × (((r.0 ≡ true) × (Map.lookup id r.1.refs ≡ none)) ⊎ ((r.0 ≡ false) × (r.1.refs ≡ s.refs)))
delete_file_and_ref_lem env id s =
    let r = delete_file_and_ref env id s in
    let (deletes, gone, same) = delete_file_and_ref-DeletesIf env id s in
    (deletes, elim (Bool-cases r.0) [ inl e ↦ inl (e, gone e) | inr e ↦ inr (e, same e) ])
