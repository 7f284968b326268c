-- ===== src/Errors.antt =====
-- flare-core-base/src/error: error codes and errors.
pub mod Code
pub mod Numbers
pub mod Names
pub mod Grpc
pub mod Flare
pub mod Proto
pub mod CodeLaws
pub mod Hop
mod Samples
