-- ===== src/Examples/Data.antt =====
-- Two fragments around one buffer: an upload of three nodes and a draw of one.
use runen_gpu.Base.{ℕ, List, [], ◌∷◌}
use runen_gpu.Resource.{GpuBufferHandle, GpuBufferUsage}
use runen_gpu.Access.Kind.{GpuBufferAccessKind}
use runen_gpu.Access.Construct.{GpuResourceAccess}
use runen_gpu.Graph.Identity.{GpuPreparedWorkNodeId, Edge}
use runen_gpu.Graph.Reason.{
  GpuDependencyReason, read_after_write, explicit_non_data, DependencyEdges,
}
use runen_gpu.Graph.Region.{GpuDependencyRegion}
use runen_gpu.Graph.Fragment.{GpuWorkNode, GpuExplicitOrder, GpuWorkFragment}
use runen_gpu.Graph.CrossHazards.{FragmentRelations}
use runen_gpu.Graph.Explicit.{GpuGraphExplicitOrder}

abbrev pub vertices : GpuBufferHandle
vertices = record {
  id = record { owner_scope = 1; local = 7 };
  size_bytes = 64;
  usages = GpuBufferUsage.storage ∷ [];
}

abbrev pub bytes_of : ℕ → ℕ → GpuBufferAccessKind → GpuResourceAccess
bytes_of offset size kind =
    GpuResourceAccess.buffer
      (record { buffer = vertices; range = record { offset = offset; size = size }; kind = kind })

abbrev pub written : GpuResourceAccess
written = bytes_of 0 16 GpuBufferAccessKind.storage_write

abbrev pub fetched : GpuResourceAccess
fetched = bytes_of 8 16 GpuBufferAccessKind.storage_read

abbrev pub drawn : GpuResourceAccess
drawn = bytes_of 0 12 GpuBufferAccessKind.storage_read

abbrev pub node_of : ℕ → ℕ → List GpuResourceAccess → GpuWorkNode
node_of identity local accesses = record {
  id = record { fragment_identity = identity; local = local };
  accesses = accesses;
}

abbrev pub write_node : GpuWorkNode
write_node = node_of 100 1 (written ∷ [])

abbrev pub fetch_node : GpuWorkNode
fetch_node = node_of 100 2 (fetched ∷ [])

abbrev pub reset_node : GpuWorkNode
reset_node = node_of 100 3 []

abbrev pub draw_node : GpuWorkNode
draw_node = node_of 200 1 (drawn ∷ [])

-- The node without accesses runs before the node that writes.
abbrev pub reset_first : GpuExplicitOrder
reset_first = record { before = reset_node.id; after = write_node.id; reason = 1 ∷ [] }

abbrev pub upload : GpuWorkFragment
upload = record {
  identity = 100;
  nodes = write_node ∷ fetch_node ∷ reset_node ∷ [];
  explicit_orders = reset_first ∷ [];
}

abbrev pub draw : GpuWorkFragment
draw = record { identity = 200; nodes = draw_node ∷ []; explicit_orders = [] }

abbrev pub frame : List GpuWorkFragment
frame = upload ∷ draw ∷ []

-- The draw imports the buffer from the upload.
abbrev pub bound : FragmentRelations
bound = (0, 1, vertices.id) ∷ []

abbrev pub draw_last : GpuGraphExplicitOrder
draw_last = record { before = fetch_node.id; after = draw_node.id; reason = 2 ∷ [] }

abbrev pub prepared : ℕ → ℕ → GpuPreparedWorkNodeId
prepared i local = record { fragment_ordinal = i; local_node = local }

abbrev pub frame_nodes : List GpuPreparedWorkNodeId
frame_nodes = prepared 0 1 ∷ prepared 0 2 ∷ prepared 0 3 ∷ prepared 1 1 ∷ []

abbrev pub frame_order : List GpuPreparedWorkNodeId
frame_order = prepared 0 3 ∷ prepared 0 1 ∷ prepared 0 2 ∷ prepared 1 1 ∷ []

-- Two nodes that wait for each other, and a third that waits for nobody.
abbrev pub ring : List Edge
ring = (prepared 0 1, prepared 0 2) ∷ (prepared 0 2, prepared 0 1) ∷ []

abbrev pub read_bytes : ℕ → ℕ → GpuDependencyReason
read_bytes offset size =
    read_after_write vertices.id
      (GpuDependencyRegion.buffer (record { offset = offset; size = size }))

-- The edges after each stage.
abbrev pub within_edges : DependencyEdges
within_edges = ((prepared 0 1, prepared 0 2), read_bytes 8 8 ∷ []) ∷ []

abbrev pub across_edges : DependencyEdges
across_edges =
    ((prepared 0 1, prepared 0 2), read_bytes 8 8 ∷ [])
    ∷ ((prepared 0 1, prepared 1 1), read_bytes 0 12 ∷ [])
    ∷ []

abbrev pub authored_edges : DependencyEdges
authored_edges =
    ((prepared 0 1, prepared 0 2), read_bytes 8 8 ∷ [])
    ∷ ((prepared 0 1, prepared 1 1), read_bytes 0 12 ∷ [])
    ∷ ((prepared 0 3, prepared 0 1), explicit_non_data (1 ∷ []) ∷ [])
    ∷ []

abbrev pub frame_edges : DependencyEdges
frame_edges =
    ((prepared 0 1, prepared 0 2), read_bytes 8 8 ∷ [])
    ∷ ((prepared 0 1, prepared 1 1), read_bytes 0 12 ∷ [])
    ∷ ((prepared 0 2, prepared 1 1), explicit_non_data (2 ∷ []) ∷ [])
    ∷ ((prepared 0 3, prepared 0 1), explicit_non_data (1 ∷ []) ∷ [])
    ∷ []
