-- ===== src/Types/Ranges.antt =====
-- What a `RangeInfo` means.
use p2_hash_join_optimizatio.Common.{Bool, ◌&&◌, ◌||◌, ltb_ℤ, eqb_ℤ}
use p2_hash_join_optimizatio.Types.{Data, RangeInfo}

-- The range as a set of numbers: above its lower end and below its upper end, each end included
-- exactly when the range says so.
unfoldable pub in_range : RangeInfo → Data → Bool
in_range range x =
    (ltb_ℤ range.start x || (range.contain_start && eqb_ℤ range.start x))
    && (ltb_ℤ x range.end || (range.contain_end && eqb_ℤ x range.end))
