-- ===== src/Core/Rbac/Examples.antt =====
-- Principals of one project against the guards of core/rbac.py.
use mini_ai_cloud.Prelude.{ℕ, ◌≡◌, refl, true, false, none, some, err, arith}
use mini_ai_cloud.Core.Enums.{owner, admin, member, viewer, ProjectRole}
use mini_ai_cloud.Core.Rbac.{
  Principal, api_key, check_principal, incomplete_api_key_principal, is_among, role_permissions,
  role_authority, has_permission, can_issue_api_key_for_role, can_cancel_task,
  can_manage_membership_roles, can_access_project, secret_use, task_create,
}
use mini_ai_cloud.Core.Rbac.Authority.{
  role_permissions_mono, can_issue_api_key_for_role-no_escalation,
  can_manage_membership_roles-issue, can_cancel_task-policy, can_access_project_unique,
}

abbrev key_of : ProjectRole → Principal
key_of r = record {
  kind = api_key;
  project_id = some 7;
  user_id = some 1;
  api_key_id = some 3;
  role = some r;
  key_prefix = some "mac_1234";
}

half_made :
    check_principal (record {
      kind = api_key;
      project_id = some 7;
      user_id = some 1;
      api_key_id = none;
      role = some admin;
      key_prefix = some "mac_1234";
    })
    ≡ err incomplete_api_key_principal
unfolding check_principal
half_made = refl

role_permissions_mono_example : is_among secret_use (role_permissions admin) ≡ true
unfolding role_authority role_permissions is_among
role_permissions_mono_example = role_permissions_mono member admin secret_use (omega arith) refl

can_issue_api_key_for_role-no_escalation_example : has_permission (key_of admin) task_create ≡ true
unfolding can_issue_api_key_for_role has_permission
can_issue_api_key_for_role-no_escalation_example =
    can_issue_api_key_for_role-no_escalation (key_of admin) (key_of member) member task_create refl
      refl refl refl

can_manage_membership_roles-issue_example :
    can_manage_membership_roles (key_of admin) (some member) (some owner) ≡ false
unfolding can_issue_api_key_for_role
can_manage_membership_roles-issue_example =
    can_manage_membership_roles-issue (key_of admin) member owner

can_cancel_task-policy_example : can_cancel_task (key_of member) (some 2) ≡ false
can_cancel_task-policy_example = can_cancel_task-policy (key_of member) (some 2)

can_access_project_unique_example :
    (i : ℕ) × (can_access_project (key_of viewer) i ≡ true)
    × ((j : ℕ) → can_access_project (key_of viewer) j ≡ true → j ≡ i)
unfolding check_principal
can_access_project_unique_example = can_access_project_unique (key_of viewer) refl (λ e. cc)
