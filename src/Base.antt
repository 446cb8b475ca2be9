-- ===== src/Base.antt =====
-- The names that the other modules share: the libraries', and those of the children.
mod Library
mod Tests
mod Lists
mod Equality
mod Search
pub mod Dict
pub mod Int
pub mod Text
pub use Library.*
pub use Tests.*
pub use Lists.*
pub use Equality.*
pub use Search.*
