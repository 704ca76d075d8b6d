-- ===== src/Sql.antt =====
-- src/utils/rbatis_dynamical.rs: the builder of dynamic SQL conditions.
pub mod Rbatis
pub mod Wrapper
pub mod Connective
pub mod Balance
pub mod Join
pub mod Push
pub mod Condition
pub mod Clause
mod Tests
