-- ===== src/Rbac/Replacement/Examples.antt =====
-- `replaceUserRoles` of internal/security/rbac/service.go where an administrator becomes a viewer.
use ai_council.Prelude.{◌≡◌, ◌≢◌, ◌↔◌, refl, In, inl, inr, false≢true, eq_iff, String, [], ◌∷◌}
use ai_council.Storage.Tables.{RoleRecord, Access}
use ai_council.Storage.Sql.{World, statement}
use ai_council.Rbac.{create_user_role, delete_user_roles, first}
use ai_council.Rbac.Grants.{HasRole}
use ai_council.Rbac.Managed.{replace_user_roles, find_roles, create_user_roles}
use ai_council.Rbac.Links.{HasUniqueIds}
use ai_council.Rbac.Replacement.{replace_user_roles-HasRole}
use ai_council.Rbac.Inversion.{Gives}
use ai_council.Rbac.Examples.{kit, access, tables}

abbrev admin : RoleRecord
admin = record { id = "admin"; name = "admin" }

abbrev viewer : RoleRecord
viewer = record { id = "7"; name = "viewer" }

abbrev two_roles : Access
two_roles = record access { roles = admin ∷ viewer ∷ [] }

abbrev demoted_world : World
demoted_world = record {
  tables = record tables {
    access = record two_roles { user_roles = record { user_id = "ann"; role_id = "7" } ∷ [] };
  };
  calls = 3;
}

abbrev two_roles_world : World
two_roles_world = record { tables = record tables { access = two_roles }; calls = 0 }

demoted : Gives (replace_user_roles kit "ann" ("viewer" ∷ [])) two_roles_world tt demoted_world
unfolding replace_user_roles find_roles create_user_roles create_user_role delete_user_roles first
    statement
demoted = (refl, refl)

apart : ◌≡◌ {A = String} "admin" "7" → ⊥
apart h = false≢true ((eq_iff "admin" "7").1 h)

two_roles-HasUniqueIds : HasUniqueIds (admin ∷ viewer ∷ [])
two_roles-HasUniqueIds r s (inl p) (inl q) e = cc (p, q)
two_roles-HasUniqueIds r s (inl p) (inr (inl q)) e = absurd (apart (cc (p, q, e)))
two_roles-HasUniqueIds r s (inr (inl p)) (inl q) e = absurd (apart (cc (p, q, e)))
two_roles-HasUniqueIds r s (inr (inl p)) (inr (inl q)) e = cc (p, q)
two_roles-HasUniqueIds r s (inr (inr i)) j e = elim i [ ]
two_roles-HasUniqueIds r s i (inr (inr j)) e = elim j [ ]

abbrev bob : String
bob = "bob"

others : bob ≢ "ann"
others h = false≢true ((eq_iff bob "ann").1 h)

replace_user_roles-HasRole_example :
    (HasRole demoted_world.tables.access "ann" "viewer" ↔ In {A = String} "viewer" ("viewer" ∷ []))
    × (HasRole demoted_world.tables.access bob "viewer" ↔ HasRole two_roles bob "viewer")
replace_user_roles-HasRole_example =
    replace_user_roles-HasRole kit "ann" ("viewer" ∷ []) two_roles_world demoted_world
      two_roles-HasUniqueIds demoted bob "viewer" others
