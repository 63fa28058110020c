-- ===== src/Config/Profiles.antt =====
-- include/cumes/config/profile_functions.hpp: the profiles that validation evaluates at the edge.
-- `pow`, `fmin`, the root of two and the conversion of an `int` are those of the language's library.
use cu_mes.Base.{ℕ, ◌+◌, Bool, true, false, List, [], ◌∷◌, if◌then◌else◌}
use cu_mes.Solver.Scalar.{Scalar}
use cu_mes.Config.Spec.{power_series, two_power, ProblemSpec}

pub record PowerMath (s : Scalar) : Type 0 where
  pub pow : s.T → s.T → s.T
  pub fmin : s.T → s.T → s.T
  pub root_two : s.T
  pub of_int : ℕ → s.T

module _ (s : Scalar) (math : PowerMath s) where
  open s use {T}

  -- The Horner loop from the last coefficient down to number `i`.
  unfoldable pub horner : Bool → T → ℕ → List T → T
  horner integrate x i [] = s.zero
  horner integrate x i (c ∷ cs) =
      s.plus (s.times x (horner integrate x (i + 1) cs))
        (if integrate then s.over c (math.of_int (i + 1)) else c)

  unfoldable pub eval_power_series : List T → T → Bool → T
  eval_power_series c x integrate =
      let ret = horner integrate x 0 c in if integrate then s.times ret x else ret

  -- The nodes and the weights of the quadrature, in pairs.
  unfoldable pub nodes : List (T × T)
  nodes =
      (s.decimal 1304673574141414 17, s.decimal 3333567215434407 17)
      ∷ (s.decimal 6746831665550774 17, s.decimal 747256745752903 16)
      ∷ (s.decimal 1602952158504878 16, s.decimal 1095431812579910 16)
      ∷ (s.decimal 2833023029353764 16, s.decimal 1346333596549982 16)
      ∷ (s.decimal 4255628305091844 16, s.decimal 1477621123573764 16)
      ∷ (s.decimal 5744371694908156 16, s.decimal 1477621123573764 16)
      ∷ (s.decimal 7166976970646236 16, s.decimal 1346333596549982 16)
      ∷ (s.decimal 8397047841495122 16, s.decimal 1095431812579910 16)
      ∷ (s.decimal 9325316833444923 16, s.decimal 747256745752903 16)
      ∷ (s.decimal 9869532642585859 16, s.decimal 3333567215434407 17)
      ∷ []

  -- `w * c0 * pow(1 - pow(xp, c1), c2)` from left to right, and the running sum.
  unfoldable pub quadrature : T → T → T → T → T → List (T × T) → T
  quadrature c0 c1 c2 x ret [] = ret
  quadrature c0 c1 c2 x ret ((g, w) ∷ rest) =
      let xp = s.times x g in
      let term = s.times (s.times w c0) (math.pow (s.minus s.one (math.pow xp c1)) c2) in
      quadrature c0 c1 c2 x (s.plus ret term) rest

  unfoldable pub eval_two_power : List T → T → Bool → T
  eval_two_power (c0 ∷ c1 ∷ c2 ∷ more) x integrate =
      if integrate
      then s.times (quadrature c0 c1 c2 x s.zero nodes) x
      else s.times c0 (math.pow (s.minus s.one (math.pow x c1)) c2)
  eval_two_power short x integrate = s.zero

  unfoldable pub torflux : ProblemSpec s → T → T
  torflux sp x = s.times x (eval_power_series sp.toroidal_flux.coefficients x false)

  unfoldable pub eval_curr_profile : ProblemSpec s → T → T
  eval_curr_profile sp x =
      let norm_x = math.fmin (s.abs (s.times x sp.physical.bloat)) s.one in
      elim sp.current.type_of [
        | two_power ↦ eval_two_power sp.current.coefficients norm_x true
        | power_series ↦ eval_power_series sp.current.coefficients norm_x true
      ]
