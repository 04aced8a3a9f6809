-- ===== src/Tasks/Rows.antt =====
-- domain-repositories/tasks.ts: a task that is ready has an agent.
use athena_console.Prelude.{Bool}
use athena_console.Tasks.{TaskRecord, is_assigned}

abbrev pub is_assigned_row : TaskRecord → Bool
is_assigned_row row = is_assigned row.status row.assigned_agent_id
