-- ===== src/Auth/Permissions.antt =====
-- Which role may do what.
use open_cuttles.Auth.{
  permissions_for_role, any_grants, Role, Permission, User, has_permission, principal_for_user,
}
use open_cuttles.Base.{◌↔◌, ◌≡◌, ◌≢◌, ◌⊎◌, true, arith}

any_grants-role :
    (r : Role) (p : Permission)
    → (any_grants (permissions_for_role r) p ≡ true)
      ↔ ((r ≡ Role.admin) ⊎ ((r ≡ Role.operator) × (p ≢ Permission.admin)) ⊎ (p ≡ Permission.view))
unfolding any_grants permissions_for_role
any_grants-role r p = ground arith

-- An administrator may do everything, an operator everything but administration, and any other
-- user may view and nothing else.
pub has_permission-role :
    (u : User) (p : Permission)
    → (has_permission (principal_for_user u) p ≡ true) ↔ (
        (u.role ≡ Role.admin)
        ⊎ ((u.role ≡ Role.operator) × (p ≢ Permission.admin))
        ⊎ (p ≡ Permission.view))
unfolding has_permission principal_for_user
has_permission-role u p = any_grants-role u.role p
