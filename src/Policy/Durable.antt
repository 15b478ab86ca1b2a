-- ===== src/Policy/Durable.antt =====
-- src/atlas/persistence/policy_store.py: the policy store over a table in Postgres. The table is a list
-- of its rows, a role and a permission each; a query is read as what its SQL says.
pub mod Refined
use atlas_alpha.Prelude.{
  Bool, true, false, not, ◌&&◌, String, Option, none, some, List, [], ◌∷◌, ◌++◌, ◌==◌,
  if◌then◌else◌, any, keep, contains, Dict, lookup, insert,
}
use atlas_alpha.Policy.{Principal, PolicyStore, wildcard, role_permissions}

abbrev pub Rows : Type 0
Rows = List (String × String)

-- `_SELECT_FOR_ROLES`, as the set comprehension reads its rows
unfoldable pub select_for_roles : List String → Rows → List String
select_for_roles roles [] = []
select_for_roles roles ((role, permission) ∷ rows) =
    let rest = select_for_roles roles rows in
    if contains roles role then permission ∷ rest else rest

abbrev pub collapsed : List String → List String
collapsed permissions = if contains permissions wildcard then wildcard ∷ [] else permissions

-- `PostgresPolicyStore.effective_permissions`
abbrev pub permissions_of : Rows → List String → List String
permissions_of rows [] = []
permissions_of rows (role ∷ roles) = collapsed (select_for_roles (role ∷ roles) rows)

abbrev pub durable_permissions : Rows → Option Principal → List String
durable_permissions rows none = []
durable_permissions rows (some p) = permissions_of rows p.roles

abbrev pub durable : Rows → PolicyStore
durable rows = record { effective_permissions = durable_permissions rows }

abbrev pub is_row : String → String → String × String → Bool
is_row role permission (r, p) = r == role && p == permission

-- `grant` (ON CONFLICT DO NOTHING) and `revoke`
unfoldable pub grant : String → String → Rows → Rows
grant role permission rows =
    if any (is_row role permission) rows then rows else rows ++ ((role, permission) ∷ [])

unfoldable pub revoke : String → String → Rows → Rows
revoke role permission rows = keep (λ row. not (is_row role permission row)) rows

abbrev pub or_nothing : Option (List String) → List String
or_nothing none = []
or_nothing (some permissions) = permissions

-- The loop of `list_policies`, over the rows and the groups so far
unfoldable pub grouped : Rows → Dict (List String) → Dict (List String)
grouped [] groups = groups
grouped ((role, permission) ∷ rows) groups =
    grouped rows (insert role (permission ∷ or_nothing (lookup role groups)) groups)

-- `list_policies`
abbrev pub list_policies : Rows → Dict (List String)
list_policies rows = grouped rows []

-- `is_empty`
abbrev pub no_rows : Rows → Bool
no_rows [] = true
no_rows (_ ∷ _) = false
