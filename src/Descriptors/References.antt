-- ===== src/Descriptors/References.antt =====
-- The reference counts of the descriptor table of RADKernel/core/RADKernel_runtime.cpp: the records
-- that share one open object name a live owner, and the owner's `refs` is their number.
pub mod Table
pub mod Closing
pub mod Onto
pub mod Installing
pub mod Promoting
