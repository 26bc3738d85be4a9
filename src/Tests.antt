-- ===== src/Tests.antt =====
-- The theorems at concrete inputs, and runs of the modelled code (pages, index pages,
-- the latch, the page table).
pub mod Pages
pub mod Indexes
pub mod Threads
pub mod Tables
pub mod Frames
pub mod Routes
pub mod Splits
pub mod Nodes
pub mod Own
pub mod Threaded
