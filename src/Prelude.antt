-- ===== src/Prelude.antt =====
-- The names that the other modules share: the libraries', passed on, and those of the children.
pub mod Basics
pub mod Tests
pub mod Lists
pub mod Texts
pub mod Numerals
pub mod Replace
pub mod Results
pub use Basics.*
pub use Tests.*
pub use Lists.*
