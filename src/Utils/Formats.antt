-- ===== src/Utils/Formats.antt =====
-- noray/src/utils.mjs, `formatByteSize` and `formatDuration`.
use bevy_noray.Base.{ℕ, ◌+◌, ◌^◌, ◌≤◌, ◌<◌, ◌≡◌, ◌⊎◌, some, arith, get_elem?}
use bevy_noray.Utils.{postfix_index, format_byte_size, postfixes}

-- The unit of a size is the largest that is not above it: the printed number is below 1024, unless the
-- unit is the last, and at least one, unless the unit is a byte.
pub format_byte_size_unit :
    (size : ℕ)
    → let f = format_byte_size size in
      (i : ℕ) × (get_elem? postfixes i ≡ some f.unit)
      × (f.denominator ≡ 1024 ^ i)
      × ((i ≡ 0) ⊎ (f.denominator ≤ size))
      × ((i ≡ 8) ⊎ (size < 1024 ^ (i + 1)))
unfolding format_byte_size postfix_index
format_byte_size_unit size =
    (postfix_index size, ground arith, ground arith, ground arith, ground arith)
