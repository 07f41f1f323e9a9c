-- ===== src/Dict.antt =====
-- The dictionaries that the program builds: `Map` and plain objects with string keys, as association
-- lists in the order of insertion (frontend/src/lib/prometheus.ts, frontend/src/lib/api.ts).
-- Writing to a key that is there keeps its place, as in JavaScript.
mod Defs
mod Laws
unfoldable pub use Defs.*
pub use Laws.*
