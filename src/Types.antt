-- ===== src/Types.antt =====
-- frontend/src/types/index.ts: the states of a migration, their tables, and the shapes of the data that
-- the server sends. Optional fields are `Option`, unions of literals are data types, `number` is a
-- parameter, and a field `type` of a rollback event is `kind`.
pub mod States
pub mod Records
pub mod Reports
