-- ===== src/SceneBuilder/References.antt =====
-- Materials and textures of the nodes in
-- bouncer/src/repo/manipulator/modelutility/repo_scene_builder.cpp.
use drepobouncer.Prelude.{
  All, All-map, ℕ, suc, ◌≤◌, true, ◌&&◌, ◌||◌, ◌≡◌, refl, ◌∙◌, List, [], ◌∷◌, Option, none, some,
  ltb, ◌==◌, if◌then◌else◌, arith, inl, inr, Bool-cases, Option-cases,
}
use drepobouncer.Prelude.Map
use drepobouncer.Prelude.Map.{Map, lookup-insert}
use drepobouncer.Prelude.Set
use drepobouncer.Prelude.Set.{contains-insert, contains-nil}
use drepobouncer.SceneBuilder.{
  Material, BuiltNode, Consumable, node, Env, SceneBuilder, commit, finalise, commit_if_many,
  add_parent, made_node, add_plain_node, make_texture_node, add_texture_reference, add_texture_if,
  make_material_node, use_material_node, add_material_reference, add_with_material, add_node,
  queue_node, set_missing_textures, add_nodes, set_revision, texture_of,
}
use drepobouncer.SceneBuilder.Links.{
  linked, queue_links, queue_links-append, add_parent_lem, finalise_lem,
}

-- Every link stays.
abbrev pub Keeps : SceneBuilder → SceneBuilder → Type 0
Keeps b b' = (v q : ℕ) → linked b v q ≡ true → linked b' v q ≡ true

queued :
    (env : Env) (n : BuiltNode) (v q : ℕ) (b : SceneBuilder)
    → linked (add_plain_node env n b) v q
      ≡ (n.unique_id == v && Set.contains q n.parent_ids) || linked b v q
unfolding add_plain_node queue_node
queued env n v q b = ground (arith, queue_links-append b.queue (node (set_revision env n) ∷ []) v q)

add_parent_materials :
    (u p : ℕ) (b : SceneBuilder)
    → (add_parent u p b).material_to_unique_id ≡ b.material_to_unique_id
unfolding add_parent commit_if_many commit
add_parent_materials u p b = ground arith

record Refers (b b' : SceneBuilder) : Type 0 where
  keeps : Keeps b b'
  materials : b'.material_to_unique_id ≡ b.material_to_unique_id

add_parent-Refers : (u p : ℕ) (b : SceneBuilder) → Refers b (add_parent u p b)
add_parent-Refers u p b = record {
  keeps = λ v q h. ground (arith, add_parent_lem u p v q b, h);
  materials = add_parent_materials u p b;
}

make_texture_node-Refers :
    (env : Env) (texture p : ℕ) (b : SceneBuilder) → Refers b (make_texture_node env texture p b)
unfolding make_texture_node set_missing_textures add_plain_node queue_node
make_texture_node-Refers env texture p b = elim (Bool-cases (env.opens texture)) [
  | inl e ↦ rw e (record {
    keeps = λ v q h. ground (
      arith,
      queue_links-append b.queue (node (set_revision env (made_node env p b)) ∷ []) v q,
      h,
    );
    materials = refl;
  })
  | inr e ↦ rw e (record { keeps = λ v q h. h; materials = refl })
]

add_texture_if-Refers :
    (env : Env) (texture : Option ℕ) (p : ℕ) (b : SceneBuilder)
    → Refers b (add_texture_if env texture p b)
unfolding add_texture_reference
add_texture_if-Refers env none p b = record { keeps = λ v q h. h; materials = refl }
add_texture_if-Refers env (some texture) p b =
    elim (Option-cases (Map.lookup texture b.texture_to_unique_id)) [
      | inl e ↦ rw (e, add_texture_reference) (make_texture_node-Refers env texture p b)
      | inr (u, e) ↦ rw (e, add_texture_reference) (add_parent-Refers u p b)
    ]

-- The material is referred to: its node is u, used n times by now.
record Uses (key p : ℕ) (b b' : SceneBuilder) : Type 0 where
  pub unique : ℕ
  pub uses : ℕ
  pub entries :
      (k : ℕ)
      → Map.lookup k b'.material_to_unique_id
        ≡ (if key == k then some (unique, uses) else Map.lookup k b.material_to_unique_id)
  pub some_use : 1 ≤ uses
  pub few : uses ≤ 500000
  pub link : linked b' unique p ≡ true
  pub keeps : Keeps b b'

make_material_node-Uses :
    (env : Env) (key : ℕ) (m : Material) (p : ℕ) (b : SceneBuilder)
    → Uses key p b (make_material_node env key m p b)
unfolding make_material_node add_plain_node queue_node Set.contains
make_material_node-Uses env key m p b =
    let n = made_node env p b in
    let b1 : SceneBuilder =
      record (add_plain_node env n (record b { next_id = suc (suc b.next_id) })) {
        material_to_unique_id = Map.insert key (n.unique_id, 1) b.material_to_unique_id;
      } in
    let r = add_texture_if-Refers env m.texture_path n.shared_id b1 in
    let grown = queue_links-append b.queue (node (set_revision env n) ∷ []) in
    record {
      unique = n.unique_id;
      uses = 1;
      entries = λ k. rw r.materials (lookup-insert key k (n.unique_id, 1) b.material_to_unique_id);
      some_use = omega arith;
      few = omega arith;
      link = r.keeps n.unique_id p (ground (arith, grown n.unique_id p));
      keeps = λ v q h. r.keeps v q (ground (arith, grown v q, h));
    }

use_material_node-Uses :
    (env : Env) (key : ℕ) (m : Material) (p u n : ℕ) (b : SceneBuilder)
    → Uses key p b (use_material_node env key m p (u, n) b)
unfolding use_material_node
use_material_node-Uses env key m p u n b = elim (Bool-cases (ltb n 500000)) [
  | inl e ↦ rw e (record {
    unique = u;
    uses = suc n;
    entries = λ k.
        rw (add_parent_materials u p b) (lookup-insert key k (u, suc n) b.material_to_unique_id);
    some_use = omega arith;
    few = ground (arith, e);
    link = ground (arith, add_parent_lem u p u p b);
    keeps = λ v q h. ground (arith, add_parent_lem u p v q b, h);
  })
  | inr e ↦ rw e (make_material_node-Uses env key m p b)
]

add_material_reference-Uses :
    (env : Env) (m : Material) (p : ℕ) (b : SceneBuilder)
    → Uses m.checksum p b (add_material_reference env m p b)
unfolding add_material_reference
add_material_reference-Uses env m p b =
    elim (Option-cases (Map.lookup m.checksum b.material_to_unique_id)) [
      | inl e ↦ rw (e, add_material_reference) (make_material_node-Uses env m.checksum m p b)
      | inr ((u, n), e) ↦
          rw (e, add_material_reference) (use_material_node-Uses env m.checksum m p u n b)
    ]

-- addMaterialReference leaves an entry for the material whose node has the parent among its parents
-- and is used at least once and at most 500000 times; the entries of other materials stay.
pub add_material_reference_lem :
    (env : Env) (m : Material) (p : ℕ) (b : SceneBuilder)
    → let b' = add_material_reference env m p b in
      (unique uses : ℕ) × ((k : ℕ)
        → Map.lookup k b'.material_to_unique_id
          ≡ (if m.checksum == k then some (unique, uses) else Map.lookup k b.material_to_unique_id))
      × (1 ≤ uses)
      × (uses ≤ 500000)
      × (linked b' unique p ≡ true)
add_material_reference_lem env m p b =
    let r = add_material_reference-Uses env m p b in
    (r.unique, r.uses, r.entries, r.some_use, r.few, r.link)

-- A mesh is a parent of the node of its material, in the queue or as a waiting update.
abbrev Referred : SceneBuilder → ℕ → Option Material → Type 0
Referred b p none = Unit
Referred b p (some m) = (u : ℕ) × (linked b u p ≡ true)

Referred-Keeps :
    (b b' : SceneBuilder) (p : ℕ) (m : Option Material)
    → Keeps b b'
    → Referred b p m
    → Referred b' p m
Referred-Keeps b b' p none k r = tt
Referred-Keeps b b' p (some m) k (u, e) = (u, k u p e)

add_with_material-Referred :
    (env : Env) (m : Option Material) (n : BuiltNode) (b : SceneBuilder)
    → Referred (add_with_material env m n b) n.shared_id m × Keeps b (add_with_material env m n b)
unfolding add_with_material
add_with_material-Referred env none n b = (tt, λ v q h. ground (arith, queued env n v q b, h))
add_with_material-Referred env (some m) n b =
    let r = add_material_reference-Uses env m n.shared_id b in
    let b1 = add_material_reference env m n.shared_id b in
    let n' : BuiltNode = record n { texture_id = texture_of m b1 n.texture_id } in
    let last : Keeps b1 (add_plain_node env n' b1) =
      λ v q h. ground (arith, queued env n' v q b1, h) in
    ((r.unique, last r.unique n.shared_id r.link), λ v q h. last v q (r.keeps v q h))

add_nodes-Keeps :
    (env : Env) (ns : List BuiltNode) (b : SceneBuilder) → Keeps b (add_nodes env ns b)
unfolding add_nodes add_node
add_nodes-Keeps env [] b v q h = h
add_nodes-Keeps env (n ∷ ns) b v q h =
    add_nodes-Keeps env ns (add_node env n b) v q
      ((add_with_material-Referred env n.material n b).1 v q h)

add_nodes-Referred :
    (env : Env) (ns : List BuiltNode) (b : SceneBuilder)
    → All (λ n. Referred (add_nodes env ns b) n.shared_id n.material) ns
unfolding add_nodes add_node
add_nodes-Referred env [] b = tt
add_nodes-Referred env (n ∷ ns) b = (
  Referred-Keeps (add_node env n b) (add_nodes env ns (add_node env n b)) n.shared_id n.material
      (add_nodes-Keeps env ns (add_node env n b)) (add_with_material-Referred env n.material n b).0,
  add_nodes-Referred env ns (add_node env n b),
)

-- What the queue says of a mesh: it is a parent of some node, that of its material.
abbrev pub Written : List Consumable → ℕ → Option Material → Type 0
Written queue p none = Unit
Written queue p (some m) = (u : ℕ) × (queue_links queue u p ≡ true)

Referred-finalise :
    (b : SceneBuilder) (p : ℕ) (m : Option Material)
    → Referred b p m
    → Written (finalise b).queue p m
Referred-finalise b p none r = tt
Referred-finalise b p (some m) (u, e) = (u, (finalise_lem b u p).1 ∙ e)

-- After addNodes and finalise no update waits, and the queue makes every mesh that was added with a
-- material a parent of some node, whatever was in the builder before.
pub add_nodes-finalise :
    (env : Env) (ns : List BuiltNode) (b : SceneBuilder)
    → let b' = finalise (add_nodes env ns b) in
      (b'.parent_updates ≡ []) × All (λ n. Written b'.queue n.shared_id n.material) ns
add_nodes-finalise env ns b =
    let b1 = add_nodes env ns b in
    (
      (finalise_lem b1 0 0).0,
      All-map (λ n. Referred b1 n.shared_id n.material)
          (λ n. Written (finalise b1).queue n.shared_id n.material)
          (λ n. Referred-finalise b1 n.shared_id n.material) ns (add_nodes-Referred env ns b),
    )
