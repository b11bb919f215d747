-- ===== src/JsMap.antt =====
-- The `Map` and `Set` of JavaScript, which the components keep their state in: an association
-- list in insertion order, where writing a key that is present keeps its place.
mod Defs
mod Laws
mod Entries
mod Sweep
unfoldable pub use Defs.*
pub use Entries.*
pub use Laws.*
unfoldable pub use Sweep.*
