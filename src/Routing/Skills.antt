-- ===== src/Routing/Skills.antt =====
-- The skills of src/mind3/skills/models.py, and the keyword table of src/mind3/skills/router.py.
use mind.Prelude.{ℕ, String, List, [], ◌∷◌, Option, if◌then◌else◌}
use text.Mathlib.Text.{◌==◌ as str_eq}

pub record SkillMetadata : Type 0 where
  pub name : String
  pub description : String
  pub tags : List String
  pub version : String

pub record SkillReference : Type 0 where
  pub name : String
  pub content : String
  pub summary : String

pub record Skill : Type 0 where
  pub metadata : SkillMetadata
  pub instructions : String
  pub references : List (String × SkillReference)
  pub scripts : List (String × String)
  pub assets : List (String × List ℕ)
  pub archive_path : Option String

-- The score in tenths.
pub record SkillMatch : Type 0 where
  pub skill : Option Skill
  pub score : ℕ
  pub matched_keywords : List String
  pub relevant_references : List SkillReference
  pub suggested_domain : String
  pub reasoning : String

pub data Subcategory : Type 0 where
  rtl physical_design cdc_dft device_concepts report_structure timeline_chart : Subcategory

abbrev vlsi_patterns : List (Subcategory × List String)
vlsi_patterns =
    (
      rtl,
      "verilog" ∷ "systemverilog" ∷ "vhdl" ∷ "rtl" ∷ "module" ∷ "always_ff" ∷ "always_comb"
          ∷ "always" ∷ "assign" ∷ "latch" ∷ "blocking" ∷ "non-blocking" ∷ "testbench" ∷ "fsm"
          ∷ "counter" ∷ "arbiter" ∷ "fifo" ∷ "axi" ∷ "cdc" ∷ "synchronizer" ∷ "hdl" ∷ "iverilog"
          ∷ [],
    )
    ∷ (
      physical_design,
      "sta" ∷ "static timing" ∷ "setup" ∷ "hold" ∷ "slack" ∷ "timing closure" ∷ "skew" ∷ "sdc"
          ∷ "cts" ∷ "floorplan" ∷ "placement" ∷ "routing" ∷ "drc" ∷ "lvs" ∷ "antenna" ∷ "primetime"
          ∷ "genus" ∷ "innovus" ∷ "pvt" ∷ "corner" ∷ "lib" ∷ "lef" ∷ "def" ∷ [],
    )
    ∷ (
      cdc_dft,
      "cdc" ∷ "clock domain crossing" ∷ "clock domain" ∷ "synchronizer" ∷ "metastability" ∷ "two-ff"
          ∷ "2ff" ∷ "dft" ∷ "scan" ∷ "atpg" ∷ "scan chain" ∷ "boundary scan" ∷ "jtag" ∷ "bist"
          ∷ "scan_en" ∷ "scan_enable" ∷ "test mode" ∷ "dft insertion" ∷ [],
    )
    ∷ (
      device_concepts,
      "mosfet" ∷ "transistor" ∷ "threshold voltage" ∷ "vt" ∷ "body effect" ∷ "dibl" ∷ "subthreshold"
          ∷ "leakage" ∷ "finfet" ∷ "gaa" ∷ "feol" ∷ "beol" ∷ "fabrication" ∷ "gate oxide" ∷ "high-k"
          ∷ "saturation" ∷ "triode" ∷ "mobility" ∷ "scaling" ∷ [],
    )
    ∷ []

abbrev report_patterns : List (Subcategory × List String)
report_patterns =
    (
      report_structure,
      "report" ∷ "industry" ∷ "market" ∷ "landscape" ∷ "executive summary" ∷ "competitive"
          ∷ "deep dive" ∷ "state of" ∷ "analysis report" ∷ "citable" ∷ "deloitte" ∷ "mckinsey" ∷ [],
    )
    ∷ (
      timeline_chart,
      "timeline" ∷ "dot-plot" ∷ "roadmap" ∷ "milestone" ∷ "planned vs actual" ∷ "delay" ∷ "tsmc"
          ∷ "intel 18a" ∷ "n3e" ∷ "n2" ∷ "foundry" ∷ "tape-out" ∷ "tapeout" ∷ "chart" ∷ [],
    )
    ∷ []

-- `DOMAIN_PATTERNS.get(name, {})`
unfoldable pub domain_patterns : String → List (Subcategory × List String)
domain_patterns name =
    if str_eq name "semiconductor-vlsi"
    then vlsi_patterns
    else if str_eq name "industry-report-analyst"
    then report_patterns
    else []
