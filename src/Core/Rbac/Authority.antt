-- ===== src/Core/Rbac/Authority.antt =====
-- What the guards of core/rbac.py guarantee: no principal hands out more than it holds.
use mini_ai_cloud.Prelude.{
  ℕ, ◌≡◌, refl, sym, ◌∙◌, ◌&&◌, ◌≤◌, ◌⊎◌, inl, inr, Bool, true, false, Option, none, some, arith,
  ok, Option-cases, ◌≢◌,
}
use mini_ai_cloud.Core.Enums.{ProjectRole, owner, admin, member, viewer}
use mini_ai_cloud.Core.Rbac.{
  Principal, Permission, PrincipalKind, api_key, legacy, system, is_among, role_permissions,
  role_authority, has_permission, check_principal, can_issue_api_key_for_role,
  can_manage_membership_roles, can_cancel_task, can_access_project, is_submitter,
}

-- A role of higher or equal authority has every permission of the lower one.
pub role_permissions_mono :
    (low high : ProjectRole) (p : Permission)
    → role_authority low ≤ role_authority high
    → is_among p (role_permissions low) ≡ true
    → is_among p (role_permissions high) ≡ true
unfolding role_authority role_permissions is_among
role_permissions_mono viewer viewer p h k = k
role_permissions_mono low high p h k = ground arith

kinds : (k : PrincipalKind) → (k ≡ system) ⊎ (k ≢ system)
kinds system = inl refl
kinds api_key = inr (λ e. cc)
kinds legacy = inr (λ e. cc)

system_holds : (p : Principal) (q : Permission) → p.kind ≡ system → has_permission p q ≡ true
unfolding has_permission
system_holds p q h = ground arith

role_holds :
    (p : Principal) (r : ProjectRole) (q : Permission)
    → p.kind ≡ api_key
    → p.role ≡ some r
    → is_among q (role_permissions r) ≡ has_permission p q
unfolding has_permission
role_holds p r q k e = ground arith

issuer :
    (p : Principal) (target : ProjectRole)
    → p.kind ≢ system
    → can_issue_api_key_for_role p target ≡ true
    → (r : ProjectRole) × (p.kind ≡ api_key)
      × (p.role ≡ some r)
      × (role_authority target ≤ role_authority r)
unfolding can_issue_api_key_for_role
issuer p target other issue = elim (Option-cases p.role) [
  | inl unset ↦ ground arith
  | inr (r, e) ↦ (r, ground arith, e, ground arith)
]

-- A key that a principal may issue for a role has no permission that the principal itself lacks.
pub can_issue_api_key_for_role-no_escalation :
    (p key : Principal) (target : ProjectRole) (permission : Permission)
    → can_issue_api_key_for_role p target ≡ true
    → key.kind ≡ api_key
    → key.role ≡ some target
    → has_permission key permission ≡ true
    → has_permission p permission ≡ true
unfolding can_issue_api_key_for_role
can_issue_api_key_for_role-no_escalation p key target permission issue kind role holds =
    elim (kinds p.kind) [
      | inl s ↦ system_holds p permission s
      | inr other ↦
          let (r, k, e, above) = issuer p target other issue in
          sym (role_holds p r permission k e)
          ∙ role_permissions_mono target r permission above
              (role_holds key target permission kind role ∙ holds)
    ]

-- The two guards agree: a membership may move from one role to another exactly when keys may be
-- issued for both roles.
pub can_manage_membership_roles-issue :
    (p : Principal) (current requested : ProjectRole)
    → can_manage_membership_roles p (some current) (some requested)
      ≡ (can_issue_api_key_for_role p current && can_issue_api_key_for_role p requested)
unfolding can_manage_membership_roles can_issue_api_key_for_role role_authority
can_manage_membership_roles-issue p current requested = ground arith

-- Who may cancel a task, by the kind of principal and, for a key, by its role.
abbrev pub cancel_policy : PrincipalKind → Option ProjectRole → Bool → Bool
cancel_policy system role is_own = true
cancel_policy legacy role is_own = true
cancel_policy api_key none is_own = false
cancel_policy api_key (some owner) is_own = true
cancel_policy api_key (some admin) is_own = true
cancel_policy api_key (some member) is_own = is_own
cancel_policy api_key (some viewer) is_own = false

-- A task is cancelled by the system, by legacy callers, by owners and administrators, and by the
-- member who submitted it; a viewer and a key without a role cancel nothing.
pub can_cancel_task-policy :
    (p : Principal) (submitted_by : Option ℕ)
    → can_cancel_task p submitted_by
      ≡ cancel_policy p.kind p.role (is_submitter p.user_id submitted_by)
unfolding can_cancel_task
can_cancel_task-policy p submitted_by = ground arith

no_project : (p : Principal) → check_principal p ≡ ok tt → p.kind ≢ system → p.project_id ≢ none
unfolding check_principal
no_project p checked kind unset = ground arith

-- A principal that passed its check and is not the system's reaches one project and no other.
pub can_access_project_unique :
    (p : Principal)
    → check_principal p ≡ ok tt
    → p.kind ≢ system
    → (i : ℕ) × (can_access_project p i ≡ true) × ((j : ℕ) → can_access_project p j ≡ true → j ≡ i)
unfolding can_access_project check_principal
can_access_project_unique p checked kind = elim (Option-cases p.project_id) [
  | inl unset ↦ absurd (no_project p checked kind unset)
  | inr (i, e) ↦ (i, ground arith, λ j h. ground arith)
]
