-- ===== src/Runtime.antt =====
-- The runtime `DTRuntime` of src/digitaltwin/runtime.py: its life cycle, its graph and the run
-- of a component.
pub mod Lifecycle
pub mod Graph
pub mod Act
pub mod Run
pub mod Api
pub mod Shared
pub mod Flow
pub mod Joining
pub mod Describe
pub mod Watching
