-- ===== src/Examples/GridExamples.antt =====
-- A grid shape and its mode table.
use cu_mes.Base.{
  pos_part, ℕ, ◌+◌, ◌-◌, ◌*◌, ◌<◌, ◌≡◌, ◌≢◌, ◌↔◌, refl, false, none, some, length, get_elem?, pos,
  leb, if◌then◌else◌, arith,
}
use cu_mes.Core.CheckedSize.{size_max, checked_mul}
use cu_mes.Core.GridShape.{
  GridShape, full_points, half_points, modes, validate, mode_count_overflows,
}
use cu_mes.Core.GridBounds.{IsInt32Shape, IsResolved, checked_mul_exact}
use cu_mes.Core.Validation.{validate_iff, accepted_extents, mode_count_error_unreachable}
use cu_mes.Core.ModeTable.{TableScalar, ModeEntry, build}
use cu_mes.Core.ModeIndex.{IsMode, build_index}

abbrev shape : GridShape
shape = record {
  ns = pos 5;
  ntheta = pos 8;
  nzeta = pos 4;
  mpol = pos 3;
  ntor = pos 2;
  nfp = pos 2;
  lasym = false;
}

-- A scalar for the table, in thousandths.
abbrev thousandths : TableScalar
thousandths = record {
  T = ℕ;
  one = 1000;
  root_two = 1414;
  of_int = λ i. pos_part i * 1000;
  times = λ a b. a * b;
}

shape-IsInt32Shape : IsInt32Shape shape
shape-IsInt32Shape = record {
  ns = (omega arith, omega arith);
  ntheta = (omega arith, omega arith);
  nzeta = (omega arith, omega arith);
  mpol = (omega arith, omega arith);
  ntor = (omega arith, omega arith);
}

shape_accepted : validate shape ≡ none
unfolding validate full_points modes checked_mul
shape_accepted = refl

-- An odd number of angles is refused.
odd_refused : validate (record shape { ntheta = pos 9 }) ≢ none
unfolding validate
odd_refused h = ground arith

checked_mul_exact_example :
    checked_mul 4294967296 4294967296
    ≡ (if leb (4294967296 * 4294967296) size_max then some (4294967296 * 4294967296) else none)
checked_mul_exact_example = checked_mul_exact 4294967296 4294967296

validate_iff_example : (validate shape ≡ none) ↔ IsResolved shape
validate_iff_example = validate_iff shape shape-IsInt32Shape

accepted_extents_example :
    (full_points shape ≡ 5 * 8 * 4)
    × (half_points shape ≡ (5 - 1) * 8 * 4)
    × (modes shape ≡ 3 * (2 + 1))
    × (0 < half_points shape)
    × (half_points shape < full_points shape)
    × (0 < modes shape)
accepted_extents_example = accepted_extents shape shape-IsInt32Shape shape_accepted

mode_count_error_unreachable_example : validate shape ≢ some mode_count_overflows
mode_count_error_unreachable_example = mode_count_error_unreachable shape shape-IsInt32Shape

build_index_example :
    (length (build thousandths shape) ≡ 3 * (2 + 1))
    × ((e : ModeEntry thousandths) × (get_elem? (build thousandths shape) (1 * (2 + 1) + 2)
          ≡ some e)
        × IsMode thousandths 2 1 2 e)
build_index_example =
    build_index thousandths shape 1 2 (omega arith) (omega arith) (omega arith) (omega arith)
