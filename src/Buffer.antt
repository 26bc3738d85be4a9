-- ===== src/Buffer.antt =====
-- The buffer (src/buffer): the page table.
pub mod Table
pub mod Frame
