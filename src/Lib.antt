-- ===== src/Lib.antt =====
-- cuMES: the parts of the equilibrium solver that run on the host, as functions, and what holds of
-- them.
--
-- cuMES solves for a plasma equilibrium on a grid of Fourier modes and flux surfaces. A JSON
-- document is mapped to a problem, which is validated as a whole: its boundary is folded, and each
-- stage gets a resolved GridShape. Each stage iterates passes on the device; after each pass the
-- host asks an IterationController whether to go on, to refresh the checkpoint or to restart with a
-- smaller step. The state and the input are written to containers that are published atomically and
-- read back for a restart.
--
-- Core models include/cumes/core and src/cumes/core. CheckedSize is checked_size.hpp, where size_t
-- is a number below 2^64; GridShape is grid_shape.hpp and grid_shape.cpp, whose `int` extents are
-- signed integers; GridBounds and Validation have what validation guarantees. ModeTable is
-- mode_table.hpp and mode_table.cpp with the scalar as a parameter and the wrap-around of `int`;
-- ModeIndex has its order and its entries.
--
-- Io models include/cumes/io and src/cumes/io. File has the C streams: a stream for reading is a
-- position and the bytes after it, a stream for writing the bytes so far and the room left on the
-- device. Outcome has the reason strings as constructors. Codec has the field functions of
-- src/cumes/io/io_common.hpp on little-endian bytes; a double is its eight bytes. InputParams is
-- input_params.hpp, InputRecord.Write, ReadHead and Read are write_input_params and
-- read_input_params, cut into the blocks of their && chains. Snapshot is equilibrium_snapshot.hpp,
-- State the family functions and check_state_dimensions, Derived the real-space fields. Publish is
-- writer_helpers.hpp over a file system that maps paths to bytes and a Device that says how each
-- system call ends; the bytes of a stream are in its file only after its flush succeeded, and a
-- failed flush, fsync or close leaves other bytes there. Checkpoint is checkpoint.cpp:
-- write_checkpoint and read_checkpoint of every version. Report and RestartOffsets are
-- run_report.hpp; Trailer, TrailerRead and VersionedBinary are versioned_binary.cpp, whose
-- write_atomic shares with write_checkpoint what Saving has. OutputSpec is output_spec.cpp. Paths
-- has the temporary paths; Spec has the rules for building facts about chains of calls; CodecLaws,
-- StateLaws, CheckpointLaws and the other modules there use them.
--
-- Solver models include/cumes/solver. Policy is control_policy.hpp; Controller and Decision are
-- iteration_controller.hpp, one function for each member function: a member that changes the
-- controller takes it and returns the new one. Scalar is the template parameter T with its
-- operations; StartPolicy is start_policy.hpp; a theorem that needs laws of them names them
-- (StepBound.IsOrdered). Actions has the calls of a stage as data, and the states that sequences of
-- calls reach. Multigrid is the loop over the stages of multigrid_solver.hpp with the device as a
-- record of parameters, and MultigridReport what its report says. Vacuum is the host state machine
-- of free_boundary_impl.cuh, VacuumPasses how the passes of kernels/solver_impl.cuh call it, and
-- VacuumFactors and VacuumRestarts what that gives.
--
-- Config models include/cumes/config and src/cumes/config. Spec is problem_spec.hpp, Precision is
-- precision_policy.hpp and solver_options.hpp, Profiles the part of profile_functions.hpp that
-- validation evaluates, Report is validation_report.hpp and validation_report.cpp, with the texts
-- of the messages as constructors. Checks, Folding and Validate are validate and fold_boundary of
-- validated_problem.cpp: a check gives the issues that it appends to the report. Acceptable says
-- what the checks ask for, CheckLaws, Keeping, Accepted, Shapes, Coefficients and Boundary what
-- follows. Json is the document that JsonParser.h parses, as a data type; Reading, Reader, Mapping
-- and ReadAndValidate are json_reader.cpp, where a reading gives a value and the issues;
-- ReaderLaws, Splines, ReaderBounds and ReaderInts have what they return. The type double is the
-- Scalar of Solver, the library functions on it are PowerMath, and the conversion of a 64-bit
-- integer is an argument.
--
-- Runtime models include/cumes/runtime/device_arena.cuh and the retry in
-- include/cumes/solver/stage_solver.hpp. Arena has the operations, where a pointer is an offset;
-- Bits has the masks in arithmetic; Carving, Layout, Retry and Construction have what follows for
-- one span, for the spans together, for the retry of StageArena, whose 16 attempts are the
-- source's, and for a stage that carves a list of spans; Needs has the bytes that such a list
-- needs.
--
-- Examples has runs on concrete numbers.
--
-- Every loop is a recursion on a list or on a number of remaining turns, so no fuel is used.
-- Counters of the controller and iteration numbers are unbounded numbers: they do not model
-- overflow of `int`. Not modelled: the device code (kernels, transforms, physics, numerics, the
-- WebGPU backend), the vacuum field solver, the NetCDF and HDF5 containers, the JSON parser and
-- writer with the normalized form of a problem, and the loop over the passes of a stage that calls
-- the controller.
pub mod Base
pub mod Core
pub mod Io
pub mod Solver
pub mod Runtime
pub mod Config
pub mod Examples
