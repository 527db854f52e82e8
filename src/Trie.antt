-- ===== src/Trie.antt =====
-- algors-trie: the radix tree.
pub mod RawVec
pub mod Bytes
pub mod Lcp
pub mod Bitmap
pub mod Keyed
pub mod Node
pub mod Lookup
pub mod Map
pub mod Prefix
pub mod Visit
pub mod Remove
pub mod Layout
pub mod Iter
pub mod Tests
