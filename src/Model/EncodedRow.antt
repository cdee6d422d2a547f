-- ===== src/Model/EncodedRow.antt =====
-- src/model/row_storage.h: `EncodedRow`. A `std::byte` is a number below 256, and a `std::string`
-- the list of its bytes.
use kv_index.Prelude.{ℕ, List}

pub record EncodedRow : Type 0 where
  pub schema_version : ℕ
  pub layout_fingerprint : ℕ
  pub row_slot : List ℕ
  pub arena : List ℕ
  pub string_dictionary : List (List ℕ)
  pub scalar_list_dictionary : List (List ℕ)
  pub string_list_dictionary : List (List (List ℕ))
  pub string_element_dictionary : List (List ℕ)
