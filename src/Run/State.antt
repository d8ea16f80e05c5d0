-- ===== src/Run/State.antt =====
-- crates/rlab-core/src/run/state.rs
use research_lab.Prelude.{Bool, true, false, if◌then◌else◌, ◌∷◌, []}
use research_lab.Prelude.Text.{Text, txt, text_eq}
use research_lab.Prelude.Outcome.{RlabResult, ok, err, run, format}

pub data RunStatus : Type 0 where
  created planned running completed failed cancelled stale reproduced : RunStatus

unfoldable pub as_str : RunStatus → Text
as_str created = txt "created"
as_str planned = txt "planned"
as_str running = txt "running"
as_str completed = txt "completed"
as_str failed = txt "failed"
as_str cancelled = txt "cancelled"
as_str stale = txt "stale"
as_str reproduced = txt "reproduced"

unfoldable pub parse : Text → RlabResult RunStatus
parse value =
    if text_eq value (txt "created")
    then ok created
    else if text_eq value (txt "planned")
    then ok planned
    else if text_eq value (txt "running")
    then ok running
    else if text_eq value (txt "completed")
    then ok completed
    else if text_eq value (txt "failed")
    then ok failed
    else if text_eq value (txt "cancelled")
    then ok cancelled
    else if text_eq value (txt "stale")
    then ok stale
    else if text_eq value (txt "reproduced")
    then ok reproduced
    else err (run (format "unknown run status: {}" (value ∷ [])))

unfoldable pub can_transition_to : RunStatus → RunStatus → Bool
can_transition_to created planned = true
can_transition_to created running = true
can_transition_to planned running = true
can_transition_to running completed = true
can_transition_to running failed = true
can_transition_to running cancelled = true
can_transition_to completed stale = true
can_transition_to completed reproduced = true
can_transition_to failed stale = true
can_transition_to s next = false
