-- ===== src/Lib.antt =====
-- A model of RunenGPU: what src/api says about resource accesses, the graph of work and the order
-- in which a graph runs, with the theorems that make it correct.
--
-- Parts and files.
--   Base       Shared helpers: Boolean tests, lists, results, `BTreeMap` and `BTreeSet` as sorted
--              lists of keys that are compared by their derived order (Base/Key.antt).
--   Texture    src/api/texture_format.rs: the table of formats (Semantics), the compression
--              families (Compression) and the queries on the table (Queries).
--   Resource   The identities, usages, subresource ranges and handles of src/api/resource.rs,
--              src/api/handles.rs and src/api/work_resource_id.rs, whose allocators are the child
--              Allocator.
--   Access     src/api/access.rs: ranges of buffers and query sets (Range), texture aspects
--              (Aspect), access kinds (Kind) and the constructors of accesses (Construct).
--   Graph      src/api/graph: the region that two accesses share (Region, for
--              `access_intersection`), hazards inside a fragment (Hazards, for
--              `infer_fragment_hazards`) and between fragments (CrossHazards, for
--              `infer_cross_fragment_hazards`), the search for data paths (DataPath, for
--              `dependency_data_path_exists`), explicit orders (Explicit), the order of the nodes
--              (Topology, for `topological_node_order`) and their chain (Preparation, for the part
--              of `prepare_core` from the first inference to the order). Of
--              src/api/graph/coverage.rs, Intervals has the normal forms of interval lists and
--              Coverage the initialized bytes of a buffer: dense and strided values, the iterator
--              over their merged intervals (Coverage/Merge), the containment test
--              (Coverage/Contains), normalization (Coverage/Normalize) and intersection
--              (Coverage/Intersect). Of src/api/graph/initialization.rs, Initialization has
--              `InitializedCoverage` with its operations on buffers, textures and queries, and
--              Simulation the changes that the nodes of a fragment make to it
--              (`apply_node_initialization`).
--   Surface    The lease of a surface image in src/api/surface_acquisition.rs.
--   Examples   Tests on a frame of two fragments, on a depth texture and on formats.
--
-- How the parts interact. An access carries a checked range of a resource. Two accesses of one
-- resource meet in a region; where one of them writes, the hazard stages add an edge between their
-- nodes; explicit orders add more edges or are refused by the search for data paths; and the
-- ordering turns the edges into a sequence of nodes or an error. The simulation runs nodes in
-- sequence on a map from resources to initialized coverage, which is built on the coverage of
-- buffers and on interval lists.
--
-- Correspondence. A function of the source keeps its name; a loop is a function of its own on the
-- list it runs over, and nested loops without state are the list of what they visit. A Rust
-- `Result` is `Result`, whose error is the cause; labels, hints and provenance are left out.
-- Integers are natural numbers, with a checked addition that fails at 2^32 or 2^64
-- (Base/Word.antt). A handle is a record with the identity of its lease, and the address that
-- `Arc::ptr_eq` compares is a number.
--
-- Fuel. The ordering loop takes the number of nodes, since a round orders one node. The search for
-- data paths takes one more than twice the number of edges, since an edge is pushed at most once
-- for each value of its Boolean. The iterator over merged intervals takes one more than the
-- segments it has left, and the loops of the containment test and of the intersection
-- more than the segments of both sides. All are shown to be enough.
--
-- Not modelled. The registration and validation of resources in `prepare_core`, the public forms of
-- initialized coverage, what each operation requires and initializes (the simulation takes it as an
-- argument) and the states before and after a fragment, work operations, context selection and
-- admission, programs, surfaces beyond their leases, execution, and the WGPU backend under
-- src/backend. The relations between fragments, which `bind_imports` produces, are an argument of
-- the models.
pub mod Base
pub mod Texture
pub mod Resource
pub mod Access
pub mod Graph
pub mod Surface
pub mod Examples
