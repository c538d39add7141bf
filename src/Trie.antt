-- ===== src/Trie.antt =====
-- CDSGateway/include/DoubleArrayTrie.hpp and src/DoubleArrayTrie.cpp: the keyword search of the filter.
pub mod Utf8
pub mod Code
pub mod Chars
pub mod Array
pub mod Search
pub mod State
pub mod Place
pub mod Build
