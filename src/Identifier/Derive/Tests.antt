-- ===== src/Identifier/Derive/Tests.antt =====
-- The derived conversions at a number and an id of the narrow backing.
use jstd.Base.{◌+◌, ◌-◌, ◌^◌, ◌≡◌, ◌↔◌, arith}
use jstd.Identifier.Derive.{
  Raw, u32, Fits, from_usize, into_usize, serialize, deserialize, into-from_iff, conversions_round,
}

into-from_iff_example :
    (into_usize u32 (from_usize u32 (2 ^ 32 + 5)) ≡ 2 ^ 32 + 5) ↔ Fits u32 (2 ^ 32 + 5)
into-from_iff_example = into-from_iff u32 (2 ^ 32 + 5)

abbrev last_id : Raw u32
last_id = (2 ^ 32 - 1, omega arith)

conversions_round_example :
    (from_usize u32 (into_usize u32 last_id) ≡ last_id)
    × (deserialize u32 (serialize u32 last_id) ≡ last_id)
conversions_round_example = conversions_round u32 last_id
