-- ===== src/Api.antt =====
-- include/kv_index/forward_index.h and src/api/forward_index.cc: the index that a program uses.
pub mod ForwardIndex
pub mod Loads
