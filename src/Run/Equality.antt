-- ===== src/Run/Equality.antt =====
-- Equality of the values that a run holds, as `==` of the dataclasses compares them field by field.
use football_ai.Prelude.{String, Option, List, String-discrete}
use football_ai.Run.Json.{Fields}
use football_ai.Run.Record.{InputReference, CodeReference, ModelReference}
use native.Mathlib.Decide.{ℕ_discrete}

unfoldable pub Fields-discrete : Discrete Fields
Fields-discrete = hlevel (ℕ_discrete, String-discrete)

unfoldable pub InputReference-discrete : Discrete InputReference
InputReference-discrete = hlevel String-discrete

unfoldable pub CodeReference-discrete : Discrete CodeReference
CodeReference-discrete = hlevel String-discrete

unfoldable pub models-discrete : Discrete (List ModelReference)
models-discrete = hlevel String-discrete

unfoldable pub Option-String-discrete : Discrete (Option String)
Option-String-discrete = hlevel String-discrete
