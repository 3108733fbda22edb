-- ===== src/Copilot/Agent/Tools/Names.antt =====
-- The names of the tools of v2/src/footballai_v2/copilot/agent/tools.py, and the outcomes of a call.

use football_ai.Prelude.{ℕ, String, Bool, true, false, List, [], ◌∷◌, any, ◌==◌}

pub data ToolName : Type 0 where
  get_run_status get_tracking_diagnostics get_artifact_metadata get_model_provenance
        get_evidence_limitations :
      ToolName

pub data ToolCallStatus : Type 0 where
  ok no_evidence rejected failed : ToolCallStatus

abbrev pub is_rejected : ToolCallStatus → Bool
is_rejected rejected = true
is_rejected _ = false

pub data ToolErrorCode : Type 0 where
  unknown_tool invalid_arguments duplicate_call tool_failed invalid_tool_output
        cross_run_reference :
      ToolErrorCode

-- `for name in ToolName`
abbrev pub tool_names : List ToolName
tool_names =
    get_run_status ∷ get_tracking_diagnostics ∷ get_artifact_metadata ∷ get_model_provenance
    ∷ get_evidence_limitations ∷ []

abbrev pub tool_value : ToolName → String
tool_value get_run_status = "get_run_status"
tool_value get_tracking_diagnostics = "get_tracking_diagnostics"
tool_value get_artifact_metadata = "get_artifact_metadata"
tool_value get_model_provenance = "get_model_provenance"
tool_value get_evidence_limitations = "get_evidence_limitations"

abbrev pub tool_code : ToolName → ℕ
tool_code get_run_status = 0
tool_code get_tracking_diagnostics = 1
tool_code get_artifact_metadata = 2
tool_code get_model_provenance = 3
tool_code get_evidence_limitations = 4

abbrev pub same_tool : ToolName → ToolName → Bool
same_tool a b = tool_code a == tool_code b

abbrev pub has_tool : List ToolName → ToolName → Bool
has_tool ts t = any (λ x. same_tool x t) ts
