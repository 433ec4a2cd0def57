-- ===== src/Scene.antt =====
-- The scene graph: bouncer/src/repo/core/model/collection/repo_scene.{h,cpp} and the node class of
-- bouncer/src/repo/core/model/bson/repo_node.{h,cpp}.
pub mod Node
pub mod Graph
pub mod Inherit
pub mod Maps
pub mod Removal
pub mod Descend
mod Examples
