-- ===== src/SceneBuilder/Validity.antt =====
-- The builder's queue and entries stay in order under every operation of
-- bouncer/src/repo/manipulator/modelutility/repo_scene_builder.cpp.
use drepobouncer.Prelude.{
  ℕ, suc, true, ◌||◌, ◌≡◌, refl, ◌∙◌, List, [], ◌∷◌, ◌++◌, Option, none, some, ltb, ◌==◌, arith,
  inl, inr, Bool-cases, Option-cases, length, All, All-map,
}
use drepobouncer.Prelude.Map
use drepobouncer.Prelude.Map.{Map, lookup-insert, lookup-nil}
use drepobouncer.Prelude.Set
use drepobouncer.SceneBuilder.{
  Material, BuiltNode, node, Env, SceneBuilder, new_builder, commit, finalise, with_parent,
  commit_if_many, add_parent, made_node, add_plain_node, make_texture_node, add_texture_reference,
  add_texture_if, make_material_node, use_material_node, add_material_reference, add_with_material,
  add_node, updates_of, queue_node, set_missing_textures, add_nodes, set_revision, texture_of,
}
use drepobouncer.SceneBuilder.Order.{
  inserted, IsOrdered, inserted-append, inserted-updates_of, IsOrdered-node, IsOrdered-updates,
  All-insert,
}

-- Updates follow their nodes, those that wait are for nodes in the queue, and so are the materials' and
-- the textures' entries.
pub record IsValid (b : SceneBuilder) : Type 0 where
  pub ordered : IsOrdered [] b.queue
  pub waiting : All (λ (e : ℕ × List ℕ). inserted b.queue e.0 ≡ true) b.parent_updates
  pub materials :
      (k u n : ℕ) → Map.lookup k b.material_to_unique_id ≡ some (u, n) → inserted b.queue u ≡ true
  pub textures :
      (k u : ℕ) → Map.lookup k b.texture_to_unique_id ≡ some u → inserted b.queue u ≡ true

pub new_builder-IsValid : IsValid new_builder
new_builder-IsValid = record {
  ordered = tt;
  waiting = tt;
  materials = λ k u n e. absurd (cc (e, lookup-nil {V = ℕ × ℕ} k));
  textures = λ k u e. absurd (cc (e, lookup-nil {V = ℕ} k));
}

-- More in the queue, and the entries as they were.
inserted-commit : (b : SceneBuilder) (u : ℕ) → inserted (commit b).queue u ≡ inserted b.queue u
unfolding commit
inserted-commit b u = ground (
  arith,
  inserted-append b.queue (updates_of b.parent_updates) u,
  inserted-updates_of b.parent_updates u,
)

commit-IsValid : (b : SceneBuilder) → IsValid b → IsValid (commit b)
unfolding commit Set.contains
commit-IsValid b v = record {
  ordered = IsOrdered-updates [] b.queue b.parent_updates v.ordered v.waiting;
  waiting = tt;
  materials = λ k u n e. inserted-commit b u ∙ v.materials k u n e;
  textures = λ k u e. inserted-commit b u ∙ v.textures k u e;
}

add_parent-IsValid :
    (u p : ℕ) (b : SceneBuilder)
    → IsValid b
    → inserted b.queue u ≡ true
    → IsValid (add_parent u p b)
unfolding add_parent commit_if_many
add_parent-IsValid u p b v h =
    let b' : SceneBuilder = record b {
      parent_updates =
          Map.insert u (with_parent p (Map.lookup u b.parent_updates)) b.parent_updates;
    } in
    let v' : IsValid b' = record {
      ordered = v.ordered;
      waiting = All-insert (λ x. inserted b.queue x ≡ true) u _ b.parent_updates h v.waiting;
      materials = v.materials;
      textures = v.textures;
    } in
    elim (Bool-cases (ltb 10000 (length b'.parent_updates))) [
      | inl e ↦ rw e (commit-IsValid b' v')
      | inr e ↦ rw e v'
    ]

inserted-add_parent :
    (u p : ℕ) (b : SceneBuilder) (x : ℕ) → inserted (add_parent u p b).queue x ≡ inserted b.queue x
unfolding add_parent commit_if_many
inserted-add_parent u p b x =
    let b' : SceneBuilder = record b {
      parent_updates =
          Map.insert u (with_parent p (Map.lookup u b.parent_updates)) b.parent_updates;
    } in
    elim (Bool-cases (ltb 10000 (length b'.parent_updates))) [
      | inl e ↦ rw e (inserted-commit b' x)
      | inr e ↦ rw e refl
    ]

-- A node is appended.
append_node : Env → BuiltNode → SceneBuilder → SceneBuilder
append_node env n b = record b { queue = b.queue ++ node (set_revision env n) ∷ [] }

inserted-append_node :
    (env : Env) (n : BuiltNode) (b : SceneBuilder) (u : ℕ)
    → inserted (append_node env n b).queue u ≡ n.unique_id == u || inserted b.queue u
unfolding append_node
inserted-append_node env n b u =
    ground (arith, inserted-append b.queue (node (set_revision env n) ∷ []) u)

append_node-IsValid :
    (env : Env) (n : BuiltNode) (b : SceneBuilder) → IsValid b → IsValid (append_node env n b)
unfolding append_node
append_node-IsValid env n b v = record {
  ordered = IsOrdered-node [] b.queue (set_revision env n) v.ordered;
  waiting =
      All-map (λ (e : ℕ × List ℕ). inserted b.queue e.0 ≡ true)
        (λ (e : ℕ × List ℕ). inserted (append_node env n b).queue e.0 ≡ true)
        (λ e x. ground (arith, inserted-append_node env n b e.0, x)) b.parent_updates v.waiting;
  materials = λ k u m e. ground (arith, inserted-append_node env n b u, v.materials k u m e);
  textures = λ k u e. ground (arith, inserted-append_node env n b u, v.textures k u e);
}

add_plain_node-IsValid :
    (env : Env) (n : BuiltNode) (b : SceneBuilder) → IsValid b → IsValid (add_plain_node env n b)
unfolding add_plain_node queue_node append_node
add_plain_node-IsValid env n b v =
    let v' = append_node-IsValid env n b v in
    record {
      ordered = v'.ordered;
      waiting = v'.waiting;
      materials = v'.materials;
      textures = v'.textures;
    }

make_texture_node-IsValid :
    (env : Env) (texture p : ℕ) (b : SceneBuilder)
    → IsValid b
    → IsValid (make_texture_node env texture p b)
unfolding make_texture_node set_missing_textures add_plain_node queue_node append_node
make_texture_node-IsValid env texture p b v = elim (Bool-cases (env.opens texture)) [
  | inl e ↦
      let n = made_node env p b in
      let v' = append_node-IsValid env n b v in
      rw e (record {
        ordered = v'.ordered;
        waiting = v'.waiting;
        materials = v'.materials;
        textures = λ k u h. ground (
          arith,
          h,
          lookup-insert texture k n.unique_id b.texture_to_unique_id,
          inserted-append_node env n b u,
          v'.textures k u,
        );
      })
  | inr e ↦ rw e (record {
    ordered = v.ordered;
    waiting = v.waiting;
    materials = v.materials;
    textures = v.textures;
  })
]

add_texture_if-IsValid :
    (env : Env) (texture : Option ℕ) (p : ℕ) (b : SceneBuilder)
    → IsValid b
    → IsValid (add_texture_if env texture p b)
unfolding add_texture_reference
add_texture_if-IsValid env none p b v = v
add_texture_if-IsValid env (some texture) p b v =
    elim (Option-cases (Map.lookup texture b.texture_to_unique_id)) [
      | inl e ↦ rw (e, add_texture_reference) (make_texture_node-IsValid env texture p b v)
      | inr (u, e) ↦
          rw (e, add_texture_reference) (add_parent-IsValid u p b v (v.textures texture u e))
    ]

make_material_node-IsValid :
    (env : Env) (key : ℕ) (m : Material) (p : ℕ) (b : SceneBuilder)
    → IsValid b
    → IsValid (make_material_node env key m p b)
unfolding make_material_node add_plain_node queue_node append_node
make_material_node-IsValid env key m p b v =
    let n = made_node env p b in
    let v' = append_node-IsValid env n b v in
    let b1 : SceneBuilder =
      record (add_plain_node env n (record b { next_id = suc (suc b.next_id) })) {
        material_to_unique_id = Map.insert key (n.unique_id, 1) b.material_to_unique_id;
      } in
    add_texture_if-IsValid env m.texture_path n.shared_id b1 (record {
      ordered = v'.ordered;
      waiting = v'.waiting;
      materials = λ k u uses h. ground (
        arith,
        h,
        lookup-insert key k (n.unique_id, 1) b.material_to_unique_id,
        inserted-append_node env n b u,
        v'.materials k u uses,
      );
      textures = v'.textures;
    })

use_material_node-IsValid :
    (env : Env) (key : ℕ) (m : Material) (p u uses : ℕ) (b : SceneBuilder)
    → IsValid b
    → inserted b.queue u ≡ true
    → IsValid (use_material_node env key m p (u, uses) b)
unfolding use_material_node
use_material_node-IsValid env key m p u uses b v h = elim (Bool-cases (ltb uses 500000)) [
  | inl e ↦
      let b1 = add_parent u p b in
      let v1 = add_parent-IsValid u p b v h in
      rw e (record {
        ordered = v1.ordered;
        waiting = v1.waiting;
        materials = λ k x n l. ground (
          arith,
          l,
          h,
          lookup-insert key k (u, suc uses) b1.material_to_unique_id,
          inserted-add_parent u p b x,
          v1.materials k x n,
        );
        textures = v1.textures;
      })
  | inr e ↦ rw e (make_material_node-IsValid env key m p b v)
]

add_material_reference-IsValid :
    (env : Env) (m : Material) (p : ℕ) (b : SceneBuilder)
    → IsValid b
    → IsValid (add_material_reference env m p b)
unfolding add_material_reference
add_material_reference-IsValid env m p b v =
    elim (Option-cases (Map.lookup m.checksum b.material_to_unique_id)) [
      | inl e ↦ rw (e, add_material_reference) (make_material_node-IsValid env m.checksum m p b v)
      | inr ((u, n), e) ↦
          rw (e, add_material_reference)
            (use_material_node-IsValid env m.checksum m p u n b v (v.materials m.checksum u n e))
    ]

add_with_material-IsValid :
    (env : Env) (m : Option Material) (n : BuiltNode) (b : SceneBuilder)
    → IsValid b
    → IsValid (add_with_material env m n b)
unfolding add_with_material
add_with_material-IsValid env none n b v = add_plain_node-IsValid env n b v
add_with_material-IsValid env (some m) n b v =
    let b1 = add_material_reference env m n.shared_id b in
    add_plain_node-IsValid env (record n { texture_id = texture_of m b1 n.texture_id }) b1
      (add_material_reference-IsValid env m n.shared_id b v)

-- addNodes keeps the order of the writes: in the queue every update of a node's parents stands behind the
-- node, and those that wait are for nodes in the queue.
pub add_nodes-IsValid :
    (env : Env) (ns : List BuiltNode) (b : SceneBuilder) → IsValid b → IsValid (add_nodes env ns b)
unfolding add_nodes add_node
add_nodes-IsValid env [] b v = v
add_nodes-IsValid env (n ∷ ns) b v =
    add_nodes-IsValid env ns (add_node env n b) (add_with_material-IsValid env n.material n b v)

-- A new builder to which nodes are added and which is then finalised pushes every update of a node's
-- parents behind the node.
pub finalise-IsOrdered :
    (env : Env) (ns : List BuiltNode) → IsOrdered [] (finalise (add_nodes env ns new_builder)).queue
unfolding finalise
finalise-IsOrdered env ns =
    (commit-IsValid (add_nodes env ns new_builder)
      (add_nodes-IsValid env ns new_builder new_builder-IsValid)).ordered
