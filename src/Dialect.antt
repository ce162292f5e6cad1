-- ===== src/Dialect.antt =====
-- The operations of the dialect: lib/EQueue/EQueueOps.cpp, include/EQueue/EQueueOps.td and the types of
-- lib/EQueue/EQueueDialect.cpp.
pub mod State
pub mod Builders
pub mod Accessors
pub mod RoundTrip
pub mod Parsers
pub mod Shapes
pub mod Types
mod Tokens
mod Examples
