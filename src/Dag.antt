-- ===== src/Dag.antt =====
-- crates/nexus-dag: the vertices, the graph that they form, and the finality gadget.
pub mod Vertex
pub mod Graph
pub mod Finality
pub mod Tips
