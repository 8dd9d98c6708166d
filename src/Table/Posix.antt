-- ===== src/Table/Posix.antt =====
-- iterator_plus_index.cpp: the index over a file that is read and written at given positions.
pub mod Reader
pub mod FileData
pub mod Index
pub mod System
pub mod Client
pub mod Store
pub mod Linear
mod Examples
