-- ===== src/Solver/Vacuum.antt =====
-- The host state machine of the free boundary, src/free_boundary_impl.cuh and
-- include/cumes/physics/free_boundary_operator.hpp: the vacuum pressure that is ramped up over the
-- passes. The field solver and the conversion to `int` are parameters, `Scalar` is `double`, and the
-- WebGPU branches are left out. An exception is its reason with the state at the throw.
use cu_mes.Base.{
  ℕ, ◌-◌, ◌%◌, Bool, true, false, not, ◌&&◌, ◌||◌, Option, none, some, ltb, ◌==◌, if◌then◌else◌,
}
use cu_mes.Solver.Scalar.{Scalar}

pub data VacuumState : Type 0 where
  off initializing initialized active : VacuumState

-- `static_cast<VacuumState>(static_cast<int>(state) + 1)`; its caller leaves `active` out.
abbrev pub next_state : VacuumState → VacuumState
next_state off = initializing
next_state initializing = initialized
next_state initialized = active
next_state active = active

abbrev pub is_off : VacuumState → Bool
is_off off = true
is_off initializing = false
is_off initialized = false
is_off active = false

abbrev pub is_initialized : VacuumState → Bool
is_initialized off = false
is_initialized initializing = false
is_initialized initialized = true
is_initialized active = false

abbrev pub is_active : VacuumState → Bool
is_active off = false
is_active initializing = false
is_active initialized = false
is_active active = true

-- The bottom promotion of `finish_host_update`.
abbrev pub promoted : VacuumState → VacuumState
promoted off = off
promoted initializing = initialized
promoted initialized = initialized
promoted active = active

pub data VacuumError : Type 0 where
  sign_mismatch current_mismatch : VacuumError

abbrev pub larger : ℕ → ℕ → ℕ
larger a b = if ltb a b then b else a

module _ (s : Scalar) where
  open s use {T, decimal}

  pub record Vacuum : Type 0 where
    pub state : VacuumState
    pub nvacskip : ℕ
    pub activation_threshold : T
    pub ivacskip : ℕ
    pub run_block : Bool
    pub full_update : Bool
    pub decay : Bool
    pub soft_restart : Bool
    pub edge_gate : Bool
    pub has_factors : Bool
    pub edge_pressure : T
    pub rbtor : T
    pub ctor : T
    pub bsubu_vac : T
    pub bsubv_vac : T
    pub delbsq : T

  -- The averages of the two outermost surfaces.
  pub record Averages : Type 0 where
    pub buco_last : T
    pub buco_prev : T
    pub bvco_last : T
    pub bvco_prev : T

  -- What the operator takes from outside.
  pub record VacuumHost : Type 0 where
    -- the conversion to `int` of a number between 0 and 10
    pub to_int : T → ℕ
    pub pi : T
    pub mu_0 : T

  -- `VACUUM_ACTIVATION_RESIDUAL` is 3.0e-2.
  unfoldable pub construct : ℕ → Bool → Option T → Vacuum
  construct nvacskip hot_start threshold = record {
    state = if hot_start then initialized else off;
    nvacskip = nvacskip;
    activation_threshold = elim threshold [ none ↦ decimal 3 2 | some value ↦ value ];
    ivacskip = 0;
    run_block = false;
    full_update = false;
    decay = false;
    soft_restart = false;
    edge_gate = false;
    has_factors = false;
    edge_pressure = s.zero;
    rbtor = s.zero;
    ctor = s.zero;
    bsubu_vac = s.zero;
    bsubv_vac = s.zero;
    delbsq = s.zero;
  }

  -- `fsqr + fsqz < activation_threshold` while the pressure is not fully on.
  abbrev pub ramps : T → T → Vacuum → Bool
  ramps fsqr fsqz v = not (is_active v.state) && s.lt (s.plus fsqr fsqz) v.activation_threshold

  -- `1.0 / std::max(0.1, 1.0e11 * (fsqr + fsqz))`
  abbrev pub skip_extension : VacuumHost → T → T → ℕ
  skip_extension h fsqr fsqz =
      let scaled = s.times (decimal 100000000000 0) (s.plus fsqr fsqz) in
      h.to_int (s.over s.one (if s.lt (decimal 1 1) scaled then scaled else decimal 1 1))

  -- The iterations are those of the controller, whose anchor is not after them.
  unfoldable pub advance : VacuumHost → ℕ → ℕ → T → T → Vacuum → Vacuum
  advance h iter2 iter1 fsqr fsqz v =
      let runs = ltb 1 iter2 || is_initialized v.state in
      let ramp = ramps fsqr fsqz v in
      let skip = if ramp then 0 else (iter2 - iter1) % v.nvacskip in
      let reached = if ramp then next_state v.state else v.state in
      let full = (skip == 0) || not v.has_factors in
      if not runs
      then record v {
        run_block = false;
        ivacskip = 0;
        full_update = false;
        decay = false;
        soft_restart = false;
      }
      else record v {
        run_block = true;
        soft_restart = false;
        ivacskip = skip;
        state = reached;
        full_update = full;
        nvacskip = if full then larger v.nvacskip (skip_extension h fsqr fsqz) else v.nvacskip;
        decay = not (is_off reached);
      }

  unfoldable pub finish_host_update : T → T → Vacuum → Option VacuumError × Vacuum
  finish_host_update bsubu bsubv v =
      let state = promoted v.state in
      let coupled = not (is_off state) in
      let solved : Vacuum = record v {
        bsubu_vac = bsubu;
        bsubv_vac = bsubv;
        has_factors = if v.full_update then true else v.has_factors;
        state = state;
      } in
      if coupled && s.lt (s.times v.rbtor bsubv) s.zero
      then (some sign_mismatch, solved)
      else if coupled && s.lt (decimal 1 2) (s.abs (s.over (s.minus v.ctor bsubu) v.rbtor))
      then (some current_mismatch, solved)
      else (
        none,
        record solved {
          soft_restart = is_initialized state;
          edge_gate = is_initialized state || is_active state;
        },
      )

  abbrev extrapolated : T → T → T
  extrapolated last prev = s.minus (s.times (decimal 15 1) last) (s.times (decimal 5 1) prev)

  -- `rbtor` and `ctor` of the two outermost surfaces; `SIGN_JACOBIAN` is -1.
  abbrev pub with_averages : VacuumHost → Averages → Vacuum → Vacuum
  with_averages h a v =
      let ctor = s.times (extrapolated a.buco_last a.buco_prev) (s.negate s.one) in
      record v {
        rbtor = extrapolated a.bvco_last a.bvco_prev;
        ctor = s.times (s.times ctor (decimal 2 0)) h.pi;
      }

  -- The argument `field` is `VacuumFieldSolver::update` on the current surface and axis: from the
  -- flag of a full update and the net toroidal current to the two averages.
  unfoldable pub run_host_update :
      VacuumHost → Averages → (Bool → T → T × T) → Vacuum → Option VacuumError × Vacuum
  unfolding finish_host_update
  run_host_update h a field v =
      let averaged = with_averages h a v in
      let (bsubu, bsubv) = field v.full_update (s.over averaged.ctor h.mu_0) in
      finish_host_update bsubu bsubv averaged

  unfoldable pub on_iteration_end : Vacuum → Vacuum
  on_iteration_end v =
      if is_initialized v.state then record v { state = active; soft_restart = false } else v

  unfoldable pub on_stage_transition : ℕ → ℕ → Vacuum → Vacuum
  on_stage_transition ns_old ns_new v =
      if not (ns_old == 0) && ltb ns_old ns_new && is_active v.state
      then record v { state = initialized }
      else v

  unfoldable pub on_stage_end : Vacuum → Vacuum
  on_stage_end v = on_iteration_end v
