-- ===== src/Authz/Roles/Laws.antt =====
-- What the grants of internal/platform/authz/roles.go resolve to.
use specforge.Prelude.{◌≡◌, String, ◌&&◌, ◌||◌, List, [], ◌∷◌, arith, any, if◌then◌else◌}
use specforge.Authz.Permissions.{Permission}
use specforge.Authz.Sets.{Set, empty_set, has, union}
use specforge.Authz.Sets.Laws.{has-union, has-empty_set}
use specforge.Authz.Roles.{Grant, in_scope, role_set, resolve, resolve_from}

has-resolve_from :
    (s : Set) (gs : List Grant) (project : String) (p : Permission)
    → has (resolve_from s gs project) p
      ≡ (has s p || any (λ g. in_scope project g && has (role_set g.role) p) gs)
unfolding resolve_from
has-resolve_from s [] project p = ground arith
has-resolve_from s (g ∷ gs) project p = ground (
  arith,
  has-resolve_from (if in_scope project g then union s (role_set g.role) else s) gs project p,
  has-union s (role_set g.role) p,
)

-- Grants resolve, in a project, to exactly the permissions that the role of some grant in scope
-- has: a tenant-wide grant, or one for that very project.
pub has-resolve :
    (gs : List Grant) (project : String) (p : Permission)
    → has (resolve gs project) p ≡ any (λ g. in_scope project g && has (role_set g.role) p) gs
unfolding resolve
has-resolve gs project p = ground (arith, has-resolve_from empty_set gs project p, has-empty_set p)
