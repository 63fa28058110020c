-- ===== src/Io/Trailer.antt =====
-- The provenance trailer of src/cumes/io/versioned_binary.cpp, as the writer writes it.
use cu_mes.Base.{ℕ, Bool, Option, none, some, List, [], ◌∷◌, length, ℤ, pos, if◌then◌else◌}
use cu_mes.Io.File.{Writing, ◌then_write◌, write_nothing}
use cu_mes.Io.Codec.{write_u8, write_i32, write_f64, write_string}
use cu_mes.Io.InputRecord.Write.{write_input_params}
use cu_mes.Io.Publish.{same_path}
use cu_mes.Io.Report.{RunReport, StageReport, double_name, float_name}

-- 0 for "double", 1 for "float".
unfoldable pub precision_tag_for : List ℕ → Option ℤ
unfolding same_path
precision_tag_for scalar_type =
    if same_path scalar_type double_name
    then some (pos 0)
    else if same_path scalar_type float_name
    then some (pos 1)
    else none

unfoldable pub write_restarts : List ℤ → Writing
write_restarts [] = write_nothing
write_restarts (r ∷ rest) = write_i32 r then_write write_restarts rest

-- `flag ? 1 : 0`
abbrev pub flag_byte : Bool → ℕ
flag_byte b = if b then 1 else 0

unfoldable pub write_stage_reports : List StageReport → Writing
unfolding write_restarts
write_stage_reports [] = write_nothing
write_stage_reports (st ∷ rest) =
    write_i32 st.ns
    then_write write_i32 st.effective_iterations
    then_write write_u8 (flag_byte st.converged)
    then_write write_f64 st.fsqr
    then_write write_f64 st.fsqz
    then_write write_f64 st.fsql
    then_write write_i32 (pos (length st.restarts))
    then_write write_restarts st.restarts
    then_write write_stage_reports rest

unfoldable pub write_provenance : RunReport → Writing
write_provenance r =
    write_string r.build.revision
    then_write write_u8 (flag_byte r.build.dirty)
    then_write write_string r.build.build_type
    then_write write_string r.build.precision_policy
    then_write write_string r.build.compile_flags
    then_write write_string r.input.source_path
    then_write write_string r.input.source_hash
    then_write write_string r.runtime.gpu_name
    then_write write_string r.runtime.driver
    then_write write_string r.runtime.runtime
    then_write write_string r.runtime.toolkit

-- The precision tag has been found.
unfoldable pub write_trailer : ℤ → RunReport → Bool → Writing
write_trailer precision r asymmetric =
    write_i32 precision
    then_write write_i32 (pos r.status)
    then_write write_i32 r.total_effective_iterations
    then_write write_i32 (pos (length r.stages))
    then_write write_provenance r
    then_write write_stage_reports r.stages
    then_write write_input_params r.input_params asymmetric
