-- ===== src/MeshBuilder/Format.antt =====
-- The format numbers of
-- bouncer/src/repo/manipulator/modelconvertor/import/odaHelper/repo_mesh_builder.cpp.
use drepobouncer.Prelude.{
  if◌then◌else◌, none, Option, none, some, inl, inr, Bool-cases, ℕ, zero, suc, ◌+◌, ◌*◌, ◌<◌, Bool,
  true, false, ◌≡◌, refl, ◌==◌, ==_iff, arith,
}
use drepobouncer.MeshBuilder.{get_mesh_format}

-- The greatest number below a bound at which two functions differ.
last_difference : ℕ → (ℕ → ℕ) → (ℕ → ℕ) → Option ℕ
last_difference zero f g = none
last_difference (suc bound) f g =
    let lower = last_difference bound f g in if f bound == g bound then lower else some bound

agree_below :
    (f g : ℕ → ℕ) (bound size : ℕ)
    → size < bound
    → last_difference bound f g ≡ none
    → f size ≡ g size
unfolding last_difference
agree_below f g zero size lt e = absurd (omega arith)
agree_below f g (suc bound) size lt e = elim (Bool-cases (f bound == g bound)) [
  | inl same ↦ elim (Bool-cases (size == bound)) [
    | inl here ↦
        let top : size ≡ bound = (==_iff size bound).0 here in
        rw top ((==_iff (f bound) (g bound)).0 same)
    | inr lower ↦ agree_below f g bound size (ground (arith, lower)) (ground (arith, e, same))
  ]
  | inr other ↦ absurd (ground (arith, e, other))
]

-- What the format is for each size.
abbrev by_size : ℕ → ℕ
by_size size = 1 + 256 * size

no_difference : (u n : Bool) → last_difference 256 (get_mesh_format u n) by_size ≡ none
unfolding get_mesh_format last_difference
no_difference true true = refl
no_difference true false = refl
no_difference false true = refl
no_difference false false = refl

-- The format of a face depends on the number of its vertices alone: neither texture coordinates nor
-- normals change it.
pub get_mesh_format_lem :
    (has_uvs has_normals : Bool) (face_size : ℕ)
    → face_size < 256
    → get_mesh_format has_uvs has_normals face_size ≡ 1 + 256 * face_size
get_mesh_format_lem u n size h =
    agree_below (get_mesh_format u n) by_size 256 size h (no_difference u n)
