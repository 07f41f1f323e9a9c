-- ===== src/IdSet.antt =====
-- JavaScript's `Set<string>`, as the list of its members in the order of insertion.
mod Laws
mod Defs
unfoldable pub use Defs.*
pub use Laws.*
