-- ===== src/Examples.antt =====
-- The theorems at concrete inputs, on a file system in memory.
pub mod Serving
pub mod Remote
pub mod Files
pub mod Parts
pub mod Wire
pub mod Scanning
pub mod Calls
pub mod Async
pub mod Running
pub mod Listing
