-- ===== src/Io/InputRecord/ReadBack.antt =====
-- The reader's blocks on the bytes that the writer writes (src/cumes/io/io_common.hpp).
use cu_mes.Base.{
  ◌≡◌, subst, Bool, true, Option, none, some, List, [], ◌∷◌, append-nil, length, All, pos, arith,
}
use cu_mes.Io.Outcome.{truncated_input_record}
use cu_mes.Io.File.{pure}
use cu_mes.Io.Spec.{
  Decodes, Decodes-bind, Decodes-last, Decodes-pure, Decodes-with_reason, Decodes-require,
  Decodes-regroup, Decodes-checked,
}
use cu_mes.Io.CodecLaws.{Decodes-i32, Decodes-f64, Decodes-string, Decodes-f64_vec, pos_in_range}
use cu_mes.Io.InputParams.{InputParams, InputStage, MakegridParametersSpec}
use cu_mes.Io.InputRecord.Read.{
  boundary_lengths_agree, read_boundary, read_free_boundary, read_coils, read_embedded,
  read_free_boundary_extension,
}
use cu_mes.Io.InputRecord.ReadHead.{read_head, read_stage, read_stage_list, read_stages}
use cu_mes.Io.InputRecord.Layout.{
  stage_bytes, stage_list_bytes, boundary_bytes, embedded_bytes, lfreeb_bytes, coils_bytes,
  head_bytes, stages_bytes, free_boundary_bytes, FitsRecord, FitsStage, FitsEmbedded,
}
use cu_mes.Io.InputRecord.Blocks.{
  is_set-flag, Decodes-flag, Decodes-makegrid, Decodes-scalars, Decodes-profile_types,
  Decodes-profiles, Decodes-boundary_vectors,
}

-- `q` with the fields of `p` that a block carries.
abbrev with_head : InputParams → InputParams → InputParams
with_head p q = record q {
  mpol = p.mpol;
  ntor = p.ntor;
  nfp = p.nfp;
  ntheta = p.ntheta;
  nzeta = p.nzeta;
  ncurr = p.ncurr;
  delt = p.delt;
  phiedge = p.phiedge;
  pres_scale = p.pres_scale;
  adiabatic_index = p.adiabatic_index;
  spres_ped = p.spres_ped;
  bloat = p.bloat;
  curtor = p.curtor;
  tcon0 = p.tcon0;
  schema = p.schema;
  pmass_type = p.pmass_type;
  piota_type = p.piota_type;
  pcurr_type = p.pcurr_type;
  am = p.am;
  ac = p.ac;
  ai = p.ai;
  aphi = p.aphi;
  raxis_c = p.raxis_c;
  zaxis_s = p.zaxis_s;
}

abbrev with_lfreeb : InputParams → Bool → InputParams → InputParams
with_lfreeb p b q = record q {
  lfreeb = b;
  nvacskip = p.nvacskip;
  mgrid_file = p.mgrid_file;
  extcur = p.extcur;
}

pub Decodes-head :
    (p q : InputParams) → FitsRecord p → Decodes (read_head true q) (head_bytes p) (with_head p q)
unfolding read_head
Decodes-head p q h = Decodes-with_reason _ (
    Decodes-bind _ (Decodes-scalars p q h)
      (Decodes-bind _ (Decodes-profile_types p _ h) (Decodes-profiles p _ h)))

Decodes-stage : (st : InputStage) → FitsStage st → Decodes read_stage (stage_bytes st) st
unfolding read_stage
Decodes-stage st h = Decodes-with_reason _ (
    Decodes-bind _ (Decodes-i32 st.ns h.0)
      (Decodes-bind _ (Decodes-i32 st.max_iter h.1) (Decodes-last _ (Decodes-f64 st.ftol))))

Decodes-stage_list :
    (stages : List InputStage)
    → All FitsStage stages
    → Decodes (read_stage_list (length stages)) (stage_list_bytes stages) stages
unfolding read_stage_list
Decodes-stage_list [] h = Decodes-pure []
Decodes-stage_list (st ∷ rest) h =
    Decodes-bind _ (Decodes-stage st h.0) (Decodes-last _ (Decodes-stage_list rest h.1))

pub Decodes-stages :
    (p q : InputParams)
    → FitsRecord p
    → Decodes (read_stages q) (stages_bytes p) (record q { stages = p.stages })
unfolding read_stages
Decodes-stages p q h =
    Decodes-bind _
      (Decodes-with_reason _ (Decodes-i32 (pos (length p.stages)) (omega (arith, h.stage_count))))
      (Decodes-require _ _ (rw (pos_in_range (length p.stages) _ h.stage_count))
        (Decodes-last _ (Decodes-stage_list p.stages h.stages)))

boundary_lengths_agree_lem : (p : InputParams) → FitsRecord p → boundary_lengths_agree p ≡ true
unfolding boundary_lengths_agree
boundary_lengths_agree_lem p h = ground arith

pub Decodes-boundary :
    (p q : InputParams)
    → FitsRecord p
    → Decodes (read_boundary q) (boundary_bytes p) (record q {
      rbc_m = p.rbc_m;
      rbc_n = p.rbc_n;
      rbc_value = p.rbc_value;
      zbs_m = p.zbs_m;
      zbs_n = p.zbs_n;
      zbs_value = p.zbs_value;
      rbcc = p.rbcc;
      rbss = p.rbss;
      zbsc = p.zbsc;
      zbcs = p.zbcs;
    })
unfolding read_boundary
Decodes-boundary p q h =
    Decodes-checked boundary_lengths_agree _
      (unfold boundary_lengths_agree in boundary_lengths_agree_lem p h)
      (Decodes-with_reason _ (Decodes-boundary_vectors p q h))

Decodes-lfreeb :
    (p q : InputParams)
    → FitsRecord p
    → Decodes (read_free_boundary q) (lfreeb_bytes p) (with_lfreeb p p.lfreeb q)
unfolding read_free_boundary
Decodes-lfreeb p q h =
    subst (λ b. Decodes (read_free_boundary q) (lfreeb_bytes p) (with_lfreeb p b q))
      (is_set-flag p.lfreeb)
      (Decodes-with_reason truncated_input_record (
        Decodes-bind _ (Decodes-flag p.lfreeb) (
          Decodes-bind _ (Decodes-i32 p.nvacskip h.nvacskip) (
            Decodes-bind _ (Decodes-string p.mgrid_file h.mgrid_file)
              (Decodes-last _ (Decodes-f64_vec p.extcur h.extcur))))))

Decodes-coils :
    (p q : InputParams)
    → FitsRecord p
    → Decodes (read_coils q) (coils_bytes p) (record q {
      coils_file = p.coils_file;
      makegrid_parameters_file = p.makegrid_parameters_file;
    })
unfolding read_coils
Decodes-coils p q h = Decodes-with_reason _ (
    Decodes-bind _ (Decodes-string p.coils_file h.coils_file)
      (Decodes-last _ (Decodes-string p.makegrid_parameters_file h.makegrid_parameters_file)))

Decodes-embedded :
    (e : Option MakegridParametersSpec) (q : InputParams)
    → FitsEmbedded e
    → q.embedded_makegrid_parameters ≡ none
    → Decodes (read_embedded q) (embedded_bytes e) (record q { embedded_makegrid_parameters = e })
unfolding read_embedded
Decodes-embedded none q h empty =
    Decodes-regroup
      (Decodes-bind _ (Decodes-with_reason _ (Decodes-i32 (pos 0) (omega arith))) (
        subst (Decodes (pure q) []) (λ i. record q { embedded_makegrid_parameters = empty i })
          (Decodes-pure q)))
      (append-nil _)
Decodes-embedded (some m) q h empty =
    Decodes-bind _ (Decodes-with_reason _ (Decodes-i32 (pos 1) (omega arith)))
      (Decodes-last _ (Decodes-with_reason _ (Decodes-makegrid m h)))

pub Decodes-free_boundary :
    (p q : InputParams)
    → FitsRecord p
    → q.embedded_makegrid_parameters ≡ none
    → Decodes
        (read_free_boundary_extension 3 q)
        (free_boundary_bytes p)
        (record (with_lfreeb p p.lfreeb q) {
          coils_file = p.coils_file;
          makegrid_parameters_file = p.makegrid_parameters_file;
          embedded_makegrid_parameters = p.embedded_makegrid_parameters;
        })
unfolding read_free_boundary_extension
Decodes-free_boundary p q h empty = Decodes-bind _ (Decodes-lfreeb p q h) (
    Decodes-bind _ (Decodes-coils p _ h)
      (Decodes-embedded p.embedded_makegrid_parameters _ h.embedded empty))
