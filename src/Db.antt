-- ===== src/Db.antt =====
-- The database: its static description, the operations of the root and of the first level, the
-- wrappers that call the operations through a node, values as text, and the search by path.
pub mod Index
pub mod Fl
pub mod Ops
pub mod Value
pub mod Find
pub mod Counters
pub mod Siblings
