-- ===== src/Hpack.antt =====
-- HPack.h and HPack.cpp: the header compression of HTTP/2.
pub mod Result
pub mod Codes
pub mod StaticTable
pub mod Integer
pub mod Huffman
pub mod Text
pub mod HeadList
pub mod Header
pub mod Fields
pub mod Encode
