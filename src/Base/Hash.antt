-- ===== src/Base/Hash.antt =====
-- src/base/hash.cc
use kv_index.Prelude.{ℕ, ◌+◌, ◌*◌, ◌/◌, ◌^◌, bit_xor, u64}

split_mix64 : ℕ → ℕ
split_mix64 value =
    let v1 = u64 (value + 0x9e3779b97f4a7c15) in
    let v2 = u64 (bit_xor v1 (v1 / 2 ^ 30) * 0xbf58476d1ce4e5b9) in
    let v3 = u64 (bit_xor v2 (v2 / 2 ^ 27) * 0x94d049bb133111eb) in bit_xor v3 (v3 / 2 ^ 31)

unfoldable pub stable_hash64 : ℕ → ℕ → ℕ → ℕ
unfolding split_mix64
stable_hash64 primary_key seed version =
    let version_mix = u64 (version * 0xd6e8feb86659fd93) in
    split_mix64 (bit_xor (bit_xor primary_key seed) version_mix)
