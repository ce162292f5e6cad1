-- ===== src/Runner.antt =====
-- lib/EQueue/CommandProcessor.cpp, `class Runner`: the state of the simulator. A map that is only
-- read through `[]` is a function; the others keep which keys they have.
mod State
pub mod Signals
pub mod Model
pub mod Control
pub mod Entry
pub mod Steps
pub mod Simulate
pub mod Build
pub mod Ids
pub mod Run
mod Examples
pub use State.*
