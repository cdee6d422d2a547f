-- ===== src/Status/Code.antt =====
-- include/kv_index/status.h: `StatusCode`. The other names of that file are in Status.antt.
pub data StatusCode : Type 0 where
  ok cancelled invalid_argument not_found failed_precondition internal unavailable unknown :
      StatusCode
