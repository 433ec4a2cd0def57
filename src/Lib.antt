-- ===== src/Lib.antt =====
-- drepobouncer: a model of 3drepobouncer, which converts building models into scene graphs, edits them
-- and stores them in a database with its files on a file system.
--
-- Parts, and the files that model them:
--
-- - Scene: the scene graph, bouncer/src/repo/core/model/collection/repo_scene.{h,cpp} and the node class
--   bouncer/src/repo/core/model/bson/repo_node.{h,cpp}. Scene/Node is RepoNode, Scene/Graph the state of
--   RepoScene with its two graphs, Scene/Inherit is addInheritance and abandonChild, Scene/Maps is
--   addNodeToMaps, addNodes, addNodeToScene, populateAndUpdate, addStashGraph and the status bits,
--   Scene/Removal is removeNode, clearStash and resetChangeSet, Scene/Descend the walks by type.
-- - FileService: bouncer/src/repo/core/handler/fileservice. FileService/Blob is BlobFilesHandler, which
--   packs binaries into files and hands them to the file manager; FileService/Manager is FileManager,
--   which stores a file and a reference to it; FileService/Fs is FSFileHandler, below the manager.
-- - MeshBuilder: RepoMeshBuilder over VertexMap, bouncer/src/repo/manipulator/modelconvertor/import/
--   odaHelper/repo_mesh_builder.{h,cpp} and vertex_map.cpp, which importers feed with faces.
-- - SceneBuilder: RepoSceneBuilder, bouncer/src/repo/manipulator/modelutility/repo_scene_builder.{h,cpp}, through
--   which importers write a scene to the database node by node. SceneBuilder/Async is its AsyncImpl, the
--   queue to the thread that writes: a step relation on the state of both threads, in which the counting of
--   sizes and the moves into and out of the queue are steps of their own. The builder's
--   own state keeps the queue as the list of all that was pushed.
-- - Reorganiser: MeshMapReorganiser, bouncer/src/repo/manipulator/modelutility/repo_mesh_map_reorganiser.{h,cpp},
--   which cuts a supermesh into sub meshes within limits of vertices and faces. Reorganiser/Large is
--   splitLargeMesh, Reorganiser/Perform is performSplitting and the constructor, Reorganiser/Drawn says what
--   sub meshes draw, the specification, and Reorganiser/Laid what the code takes for granted of its input.
-- - ClashScheduler: bouncer/src/repo/manipulator/modelutility/clashdetection/clash_scheduler.{h,cpp}, which orders
--   the pairs of meshes that the clash detection tests. ClashScheduler/Remaining and ClashScheduler/Blocks
--   say what the graph stands for and what a schedule is made of.
-- - SelectionTree: bouncer/src/repo/manipulator/modelutility/repo_maker_selection_tree.{h,cpp}.
--   SelectionTree/Linking is generateSelectionTrees up to the traversal, SelectionTree/Read describes what its
--   loops read, SelectionTree is traversePtree.
-- - Multipart: of MultipartOptimizer, bouncer/src/repo/manipulator/modeloptimizer/repo_optimizer_multipart.{h,cpp},
--   which makes supermeshes. Multipart/BigClusters is splitBigClusters, Multipart/Clusters is createSuperMeshes and
--   appendMesh, for a cluster of meshes whose materials are left out; Multipart is splitMesh and
--   createSupermeshFromBranch, which cut a mesh that is too large by the tree that the bvh library builds over its
--   faces. The limit is a parameter of the model; in the code it is 1200000 vertices, which the at most 16 faces of a
--   leaf are far from.
-- - Prelude: tests on numbers, lists, maps and sets. std::map and std::unordered_map are association
--   lists, std::set of identifiers is an ascending list.
--
-- How they interact: an importer collects faces in a MeshBuilder, hands the nodes to a SceneBuilder or puts
-- them into a Scene; the binary data of the nodes go through Blob, Manager and Fs to the disk.
--
-- Each part has the definitions in the module named after it, the theorems in modules below it, and the
-- runs at concrete inputs in its module Examples.
--
-- Abstractions. An identifier is a number. Nodes are shared and mutable: they live in a heap, a pointer is
-- an address, and `delete` is recorded in the list of freed addresses. Log output is left out. The database,
-- the gzip filters, random numbers, hashes and the outcomes of writes are arguments of the model, and
-- so are the offset, the matrix and the boxes of the mesh builder, which are floating point.
-- Fuel: the loops of the clash scheduler take fuel for a round for each pair, which is enough as each round
-- schedules a pair; the descent by type and the traversal of the selection tree take fuel, and end with any that exceeds the rank of its start;
-- the rank is a measure that falls from parents to children, which exists as the graph has no cycle.
--
-- The tries of an upload are three, as in the source, by recursion on their number.
--
-- Not modelled: the commit and the loading of scenes, which need the database; BSON, the importers and the
-- client, which are glue over libraries outside the repository; the rest of the multipart optimiser and the
-- geometric tests of the clash detection, which are floating point; the JSON
-- of the selection tree; and
-- the libraries copied into the repository (rapidjson, hopscotch map, bvh, spscqueue, predicates).
pub mod ClashScheduler
pub mod FileService
pub mod MeshBuilder
pub mod Multipart
pub mod Prelude
pub mod Reorganiser
pub mod Scene
pub mod SceneBuilder
pub mod SelectionTree
