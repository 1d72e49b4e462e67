-- ===== src/Api.antt =====
-- The API types of api/v1alpha1, and the fields of the Kubernetes objects that the program reads.
mod Spec
mod Status
mod Objects
pub use Spec.*
pub use Status.*
pub use Objects.*
