-- ===== src/Tokenizer.antt =====
-- engine/tokenizer.h, engine/tokenizer.cpp and engine/tokenizer_rwkv.cpp: texts are lists of bytes.
pub mod Bytes
pub mod Literal
pub mod Trie
pub mod Rwkv
