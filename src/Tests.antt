-- ===== src/Tests.antt =====
-- Runs of the model on small inputs, and the theorems at such inputs.
pub mod Target
pub mod Streams
pub mod Declaring
pub mod Modules
pub mod Phi
pub mod Reach
pub mod Vertex
pub mod Suite
pub mod Drafts
pub mod Sharing
pub mod Golden
pub mod Methods
