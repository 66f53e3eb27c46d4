-- ===== src/Core/Rbac.antt =====
-- core/rbac.py: principals, the permissions of each role, and the guards. A UUID is its 128-bit
-- number; a `frozenset` is the list of its members, and is used by `in` alone.
pub mod Authority
mod Examples
use mini_ai_cloud.Prelude.{
  ℕ, ◌≡◌, Bool, true, false, not, ◌&&◌, ◌||◌, Option, none, some, List, [], ◌∷◌, ◌++◌, any, all,
  ◌==◌, leb, if◌then◌else◌, is_none, is_some, Result, ok, err, raise_if,
}
use mini_ai_cloud.Prelude.Text.{String}
use mini_ai_cloud.Core.Enums.{ProjectRole, owner, admin, member, viewer}

pub data PrincipalKind : Type 0 where
  api_key legacy system : PrincipalKind

pub data Permission : Type 0 where
  task_read task_log_read task_create task_cancel_own task_cancel_any usage_read : Permission
  cost_read model_read model_manage secret_use secret_manage api_key_manage : Permission
  quota_manage image_policy_manage membership_manage project_delete audit_read : Permission
  worker_read worker_manage : Permission

permission_index : Permission → ℕ
permission_index task_read = 0
permission_index task_log_read = 1
permission_index task_create = 2
permission_index task_cancel_own = 3
permission_index task_cancel_any = 4
permission_index usage_read = 5
permission_index cost_read = 6
permission_index model_read = 7
permission_index model_manage = 8
permission_index secret_use = 9
permission_index secret_manage = 10
permission_index api_key_manage = 11
permission_index quota_manage = 12
permission_index image_policy_manage = 13
permission_index membership_manage = 14
permission_index project_delete = 15
permission_index audit_read = 16
permission_index worker_read = 17
permission_index worker_manage = 18

unfoldable pub is_among : Permission → List Permission → Bool
unfolding permission_index
is_among p ps = any (λ q. permission_index p == permission_index q) ps

-- `frozenset(Permission)`
abbrev pub every_permission : List Permission
every_permission =
    task_read ∷ task_log_read ∷ task_create ∷ task_cancel_own ∷ task_cancel_any ∷ usage_read
    ∷ cost_read ∷ model_read ∷ model_manage ∷ secret_use ∷ secret_manage ∷ api_key_manage
    ∷ quota_manage ∷ image_policy_manage ∷ membership_manage ∷ project_delete ∷ audit_read
    ∷ worker_read ∷ worker_manage ∷ []

abbrev pub viewer_permissions : List Permission
viewer_permissions = task_read ∷ task_log_read ∷ usage_read ∷ cost_read ∷ model_read ∷ []

abbrev pub member_permissions : List Permission
member_permissions = viewer_permissions ++ (task_create ∷ task_cancel_own ∷ secret_use ∷ [])

abbrev pub admin_permissions : List Permission
admin_permissions =
    member_permissions
    ++ (task_cancel_any ∷ model_manage ∷ secret_manage ∷ api_key_manage ∷ quota_manage
        ∷ image_policy_manage ∷ audit_read ∷ worker_read ∷ worker_manage ∷ [])

pub role_permissions : ProjectRole → List Permission
role_permissions viewer = viewer_permissions
role_permissions member = member_permissions
role_permissions admin = admin_permissions
role_permissions owner = every_permission

pub role_authority : ProjectRole → ℕ
role_authority viewer = 0
role_authority member = 1
role_authority admin = 2
role_authority owner = 3

abbrev pub legacy_permissions : List Permission
legacy_permissions = task_read ∷ task_log_read ∷ task_create ∷ task_cancel_any ∷ worker_read ∷ []

pub record Principal : Type 0 where
  pub kind : PrincipalKind
  pub project_id : Option ℕ
  pub user_id : Option ℕ
  pub api_key_id : Option ℕ
  pub role : Option ProjectRole
  pub key_prefix : Option String

pub data PrincipalError : Type 0 where
  incomplete_api_key_principal legacy_without_project legacy_with_key_data : PrincipalError
  system_with_key_data : PrincipalError

-- `Principal.__post_init__`
pub check_principal : Principal → Result PrincipalError (Unit {0})
check_principal p = elim p.kind [
  | api_key ↦
      raise_if
        (is_none p.project_id
          || is_none p.user_id
          || is_none p.api_key_id
          || is_none p.role
          || is_none p.key_prefix)
        incomplete_api_key_principal
  | legacy ↦
      if is_none p.project_id
      then err legacy_without_project
      else raise_if (is_some p.api_key_id || is_some p.role || is_some p.key_prefix)
          legacy_with_key_data
  | system ↦ raise_if (is_some p.api_key_id || is_some p.key_prefix) system_with_key_data
]

pub permissions_for : Principal → List Permission
unfolding role_permissions
permissions_for p = elim p.kind [
  | system ↦ every_permission
  | legacy ↦ legacy_permissions
  | api_key ↦ elim p.role [ none ↦ [] | some r ↦ role_permissions r ]
]

pub has_permission : Principal → Permission → Bool
unfolding permissions_for is_among
has_permission p permission = is_among permission (permissions_for p)

pub data AccessError : Type 0 where
  permission_denied : Permission → AccessError
  project_access_denied : AccessError

pub require_permission : Principal → Permission → Result AccessError (Unit {0})
unfolding has_permission
require_permission p permission =
    raise_if (not (has_permission p permission)) (permission_denied permission)

-- `principal.project_id == project_id`, where the left side may be `None`.
abbrev pub is_same_id : Option ℕ → ℕ → Bool
is_same_id none j = false
is_same_id (some i) j = i == j

abbrev pub is_system : PrincipalKind → Bool
is_system system = true
is_system _ = false

abbrev pub is_api_key : PrincipalKind → Bool
is_api_key api_key = true
is_api_key _ = false

pub can_access_project : Principal → ℕ → Bool
can_access_project p project_id = is_system p.kind || is_same_id p.project_id project_id

pub require_project_access : Principal → ℕ → Result AccessError (Unit {0})
unfolding can_access_project
require_project_access p project_id =
    raise_if (not (can_access_project p project_id)) project_access_denied

-- `role is not None and _ROLE_AUTHORITY[role] >= _ROLE_AUTHORITY[target]`
role_reaches : Option ProjectRole → ProjectRole → Bool
unfolding role_authority
role_reaches none target = false
role_reaches (some r) target = leb (role_authority target) (role_authority r)

pub can_issue_api_key_for_role : Principal → ProjectRole → Bool
unfolding role_reaches
can_issue_api_key_for_role p target =
    if is_system p.kind then true else is_api_key p.kind && role_reaches p.role target

-- `target is None or caller_authority >= _ROLE_AUTHORITY[target]`
role_allows : ProjectRole → Option ProjectRole → Bool
unfolding role_authority
role_allows caller none = true
role_allows caller (some target) = leb (role_authority target) (role_authority caller)

pub can_manage_membership_roles : Principal → Option ProjectRole → Option ProjectRole → Bool
unfolding role_allows
can_manage_membership_roles p current_role requested_role =
    if is_system p.kind then true else if not (is_api_key p.kind) then false else elim p.role [
      | none ↦ false
      | some caller ↦ role_allows caller current_role && role_allows caller requested_role
    ]

-- `principal.user_id is not None and principal.user_id == submitted_by_user_id`
abbrev pub is_submitter : Option ℕ → Option ℕ → Bool
is_submitter none _ = false
is_submitter (some u) none = false
is_submitter (some u) (some v) = u == v

pub can_cancel_task : Principal → Option ℕ → Bool
unfolding has_permission
can_cancel_task p submitted_by_user_id =
    if has_permission p task_cancel_any
    then true
    else is_submitter p.user_id submitted_by_user_id && has_permission p task_cancel_own
