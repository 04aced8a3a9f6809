-- ===== src/Rbac.antt =====
-- packages/core/src/control-plane/rbac.ts: what each role is permitted.
pub mod Permissions
use athena_console.Prelude.{String, Bool, List, [], ◌∷◌, ◌++◌, map, includes}

pub data AthenaRbacRole : Type 0 where
  viewer operator admin : AthenaRbacRole

abbrev pub viewer_permissions : List String
viewer_permissions =
    "capabilities.get" ∷ "durableMemory.get" ∷ "durableMemory.health" ∷ "durableMemory.list"
    ∷ "durableMemory.proposal.list" ∷ "durableMemory.search" ∷ "durableMemory.snapshot.list"
    ∷ "events.list" ∷ "operations.cost.export" ∷ "operations.cost.settings.read"
    ∷ "operations.summary.read" ∷ "lsp.definition" ∷ "lsp.hover" ∷ "lsp.references" ∷ "lsp.symbols"
    ∷ "memory.get" ∷ "memory.search" ∷ "sessions.artifacts.read" ∷ "sessions.get" ∷ "sessions.list"
    ∷ "sessions.search" ∷ "sessions.transcript.read" ∷ "taskWorkbench.get" ∷ "taskWorkbench.list"
    ∷ "taskWorkbench.metadata" ∷ "taskWorkbench.runArtifact.read" ∷ "taskWorkbench.runReadiness"
    ∷ "taskWorkbench.run.read" ∷ []

abbrev pub operator_additional_permissions : List String
operator_additional_permissions =
    "a2a.observability.get" ∷ "a2a.observability.alertHistory.list"
    ∷ "a2a.observability.alertHistory.export" ∷ "a2a.flow.get" ∷ "failed-work.discard"
    ∷ "failed-work.list" ∷ "failed-work.retry" ∷ "directives.create" ∷ "directives.list"
    ∷ "durableMemory.archive" ∷ "durableMemory.delete" ∷ "durableMemory.proposal.approve"
    ∷ "durableMemory.proposal.archive" ∷ "durableMemory.proposal.create"
    ∷ "durableMemory.proposal.reject" ∷ "durableMemory.snapshot.create"
    ∷ "durableMemory.snapshot.restore" ∷ "durableMemory.write" ∷ "operations.cost.settings.write"
    ∷ "runs.cancel" ∷ "runs.cancelByRunId" ∷ "runs.create" ∷ "schedules.remove" ∷ "schedules.upsert"
    ∷ "taskWorkbench.cancelRun" ∷ "taskWorkbench.create" ∷ "taskWorkbench.runTask"
    ∷ "taskWorkbench.update" ∷ "work.drain" ∷ "work.enqueue" ∷ "work.status" ∷ "workflow.create"
    ∷ "workflow.list" ∷ "workflow.resume" ∷ "workflow.status" ∷ []

abbrev pub admin_additional_permissions : List String
admin_additional_permissions =
    "policy.put" ∷ "governance.audit.list" ∷ "modelProviders.create" ∷ "modelProviders.delete"
    ∷ "modelProviders.get" ∷ "modelProviders.list" ∷ "modelProviders.test" ∷ "modelProviders.update"
    ∷ "rbac.assignments.delete" ∷ "rbac.assignments.list" ∷ "rbac.assignments.upsert"
    ∷ "rbac.audit.read" ∷ "rbac.roles.list" ∷ []

unfoldable pub get_permissions_for_role : AthenaRbacRole → List String
get_permissions_for_role viewer = viewer_permissions
get_permissions_for_role operator = viewer_permissions ++ operator_additional_permissions
get_permissions_for_role admin =
    viewer_permissions ++ operator_additional_permissions ++ admin_additional_permissions

pub record RbacRoleDefinition : Type 0 where
  pub name : AthenaRbacRole
  pub permissions : List String

pub record SimulatedOperation : Type 0 where
  pub id : String
  pub label : String
  pub required_permission : String

pub record RbacRoleSimulationOperation : Type 0 where
  pub id : String
  pub label : String
  pub required_permission : String
  pub allowed : Bool

pub record RbacRoleSimulationResult : Type 0 where
  pub role : AthenaRbacRole
  pub operations : List RbacRoleSimulationOperation

abbrev pub simulated_operations : List SimulatedOperation
simulated_operations =
    record {
      id = "provider-config";
      label = "Provider configuration";
      required_permission = "modelProviders.update";
    }
    ∷ record {
      id = "task-execution";
      label = "Task execution";
      required_permission = "taskWorkbench.runTask";
    }
    ∷ record {
      id = "memory-approval";
      label = "Memory proposal approval";
      required_permission = "durableMemory.proposal.approve";
    }
    ∷ record { id = "policy-change"; label = "Policy changes"; required_permission = "policy.put" }
    ∷ record {
      id = "audit-export";
      label = "Audit export/search";
      required_permission = "governance.audit.list";
    }
    ∷ []

abbrev role_definition : AthenaRbacRole → RbacRoleDefinition
role_definition role = record { name = role; permissions = get_permissions_for_role role }

unfoldable pub list_rbac_roles : List RbacRoleDefinition
list_rbac_roles = map role_definition (viewer ∷ operator ∷ admin ∷ [])

abbrev simulated : List String → SimulatedOperation → RbacRoleSimulationOperation
simulated permissions operation = record {
  id = operation.id;
  label = operation.label;
  required_permission = operation.required_permission;
  allowed = includes permissions operation.required_permission;
}

unfoldable pub simulate_rbac_role : AthenaRbacRole → RbacRoleSimulationResult
simulate_rbac_role role = record {
  role = role;
  operations = map (simulated (get_permissions_for_role role)) simulated_operations;
}
