-- ===== src/Join.antt =====
-- The join algorithms of join-practice/, each against one relational specification.
pub mod Row
pub mod Nested
pub mod Block
pub mod Multimap
pub mod Hash
pub mod Grace
pub mod MergeSort
pub mod SortMerge
pub mod Agreement
mod Demo
mod Examples
