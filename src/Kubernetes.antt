-- ===== src/Kubernetes.antt =====
-- The use of the Kubernetes API: kinds of objects, their models, and what is done with objects.
pub mod Values
pub mod Models
pub mod Names
pub mod Table
pub mod Clients
pub mod Kinds
pub mod Attributes
pub mod Manifests
pub mod Objects
pub mod States
mod Tests
