-- ===== src/Examples/Types.antt =====
-- Source positions and the power-of-two test at concrete inputs.
use kv_index.Prelude.{ℕ, ◌^◌, ◌≡◌, refl, ◌↔◌, pos, ◌<ℤ◌, true}
use kv_index.Status.{ok}
use kv_index.Types.{SourcePosition, newer, classify_source_position_update}
use kv_index.Types.Order.{IsComparable, classify-newer_iff}
use kv_index.Base.Bits.{is_power_of_two, is_power_of_two_iff}

abbrev position : ℕ → SourcePosition
position n = record { partition = pos 2; offset = pos n }

classify-newer_iff_example :
    (classify_source_position_update (position 4) (position 9) ≡ ok newer)
    ↔ IsComparable (position 4) (position 9) × (pos 4 <ℤ pos 9)
classify-newer_iff_example = classify-newer_iff (position 4) (position 9)

newer_4_9 : classify_source_position_update (position 4) (position 9) ≡ ok newer
unfolding classify_source_position_update
newer_4_9 = refl

is_power_of_two_iff_example : (is_power_of_two 128 ≡ true) ↔ ((k : ℕ) × (128 ≡ 2 ^ k))
is_power_of_two_iff_example = is_power_of_two_iff 128
