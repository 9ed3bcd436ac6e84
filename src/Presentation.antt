-- ===== src/Presentation.antt =====
-- The graph panel's data: graph_backends.py (Text, Normalize, Slice, Backends) and graph_gateway.py (Gateway).
pub mod Text
pub mod Normalize
pub mod Slice
pub mod Backends
pub mod Gateway
mod Renderable
mod Safe
mod Available
mod Tests
