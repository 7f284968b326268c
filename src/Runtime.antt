-- ===== src/Runtime.antt =====
-- flare-core-runtime/src: the service runtime.
pub mod TaskState
pub mod Tracker
pub mod Topology
pub mod Manager
pub mod Health
pub mod Middleware
pub mod Service
