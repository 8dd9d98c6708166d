-- ===== src/Table.antt =====
-- The two record tables with an index over a file: iterator_plus_index.cpp (`Posix`) and
-- index_and_iterator.cpp (`Stream`), and what both use.
pub mod Bytes
pub mod OrderedMap
pub mod Posix
pub mod Stream
