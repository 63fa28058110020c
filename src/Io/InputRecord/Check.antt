-- ===== src/Io/InputRecord/Check.antt =====
-- src/cumes/io/io_common.hpp: what both sides of the input record share.
use cu_mes.Base.{
  ℕ, ◌+◌, ◌%◌, Bool, false, not, ◌&&◌, ◌||◌, Option, none, some, length, ℤ, pos, ltb_ℤ, eqb_ℤ, leb,
  ◌==◌, if◌then◌else◌,
}
use cu_mes.Core.CheckedSize.{to_size, checked_mul, size_mod}
use cu_mes.Io.Codec.{max_input_params_vector}
use cu_mes.Io.InputParams.{InputParams}

-- `flag ? 1 : 0`
abbrev pub flag : Bool → ℤ
flag b = if b then pos 1 else pos 0

-- `v != 0`
abbrev pub is_set : ℤ → Bool
is_set v = not (eqb_ℤ v (pos 0))

-- Whether `modes` engages and is at most the cap, and the four folded vectors have that size.
abbrev folded_sizes_fit : Option ℕ → InputParams → Bool
folded_sizes_fit none p = false
folded_sizes_fit (some modes) p =
    leb modes max_input_params_vector
    && (length p.rbsc == modes)
    && (length p.rbcs == modes)
    && (length p.zbcc == modes)
    && (length p.zbss == modes)

unfoldable pub check_asymmetric_input_params : InputParams → Bool
unfolding checked_mul
check_asymmetric_input_params p =
    if not p.lasym || ltb_ℤ p.mpol (pos 1) || ltb_ℤ p.ntor (pos 0)
    then false
    else let axis = (to_size p.ntor + 1) % size_mod in
      folded_sizes_fit (checked_mul (to_size p.mpol) axis) p
      && leb axis max_input_params_vector
      && leb (length p.rbs_m) max_input_params_vector
      && leb (length p.zbc_m) max_input_params_vector
      && (length p.raxis_s == axis)
      && (length p.zaxis_c == axis)
      && (length p.rbs_m == length p.rbs_n)
      && (length p.rbs_m == length p.rbs_value)
      && (length p.zbc_m == length p.zbc_n)
      && (length p.zbc_m == length p.zbc_value)
