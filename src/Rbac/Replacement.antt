-- ===== src/Rbac/Replacement.antt =====
-- The roles of a user after `replaceUserRoles` of internal/security/rbac/service.go.
pub mod Examples
use ai_council.Prelude.{
  ◌≡◌, ◌≢◌, ◌↔◌, refl, sym, ap, ◌∙◌, inl, inr, String, not, List, [], ◌∷◌, any, filter, str_eq,
  eq_iff, In, find-In, Bool-cases,
}
use ai_council.Storage.Tables.{RoleRecord, UserRoleRecord, Tables}
use ai_council.Storage.Sql.{Error, Result, ok, err, World, insert}
use ai_council.Rbac.{
  Kit, role_named, user_role_clash, added, with_access, first, create_user_role, delete_user_roles,
}
use ai_council.Rbac.Managed.{find_roles, create_user_roles, replace_user_roles}
use ai_council.Rbac.Inversion.{Gives, >>=-ok, statement-ok, first-ok}
use ai_council.Rbac.Grants.{HasRole}
use ai_council.Rbac.Links.{
  AreNamed, links, link_to, with_links, other_links, HasUniqueIds, replaced-In, In-replaced,
  replaced-HasRole, HasRole-replaced,
}

tables_of : {A : Type 0} → Tables → Result (A × Tables) → Tables
tables_of d (ok (a, t)) = t
tables_of d (err e) = d

module _ (kit : Kit) where
  find_roles-AreNamed :
      (names : List String) (roles : List RoleRecord) (w v : World)
      → Gives (find_roles kit names) w roles v
      → (v.tables ≡ w.tables) × AreNamed names w.tables.access.roles roles
  unfolding find_roles
  find_roles-AreNamed [] roles w v (h, e) =
      let q : [] ≡ roles = cc h in (ap (λ (x : World). x.tables) (sym e), rw (← q) tt)
  find_roles-AreNamed (n ∷ ns) roles w v h =
      let (r, u1, h1, k1) = >>=-ok (first kit (λ a. a.roles) (role_named n)) _ w v roles h in
      let (f, s1) = first-ok kit (λ a. a.roles) (role_named n) w u1 r h1 in
      let (rest, u2, h2, k2) = >>=-ok (find_roles kit ns) _ u1 v roles k1 in
      let (t2, named) = find_roles-AreNamed ns rest u1 u2 h2 in
      let t1 : u1.tables ≡ w.tables = ap (λ (x : World). x.tables) s1 in
      let (i, e) = find-In (role_named n) w.tables.access.roles r f in
      let q : r ∷ rest ≡ roles = cc (k2.0) in
      (
        ap (λ (x : World). x.tables) (sym k2.1) ∙ (t2 ∙ t1),
        rw (← q) (i, (eq_iff r.name n).0 e, rw t1 at named),
      )

  create_user_role-ok :
      (l : UserRoleRecord) (w v : World)
      → Gives (create_user_role kit l) w tt v
      → v.tables ≡ with_links (l ∷ w.tables.access.user_roles) w.tables
  unfolding create_user_role tables_of
  create_user_role-ok l w v h =
      let (t, e, s) =
        statement-ok kit.host
          (λ (t : Tables).
            added (λ rows. record t.access { user_roles = rows }) t
              (insert (user_role_clash l) l t.access.user_roles))
          w v tt h in
      elim (Bool-cases (any (user_role_clash l) w.tables.access.user_roles)) [
        | inl c ↦ absurd (cc (let k : err Error.duplicate ≡ ok (pair t) = rw c at e in k))
        | inr c ↦
            ap (λ (x : World). x.tables) s
            ∙ sym (ap (tables_of {A = Unit {0}} w.tables) (rw c at e))
      ]
    where
      pair : Tables → Unit {0} × Tables
      pair x = (tt, x)

  create_user_roles-links :
      (user : String) (roles : List RoleRecord) (w v : World)
      → Gives (create_user_roles kit user roles) w tt v
      → v.tables ≡ with_links (links user roles w.tables.access.user_roles) w.tables
  unfolding create_user_roles
  create_user_roles-links user [] w v (h, e) = ap (λ (x : World). x.tables) (sym e)
  create_user_roles-links user (r ∷ rs) w v h =
      let (u, u1, h1, k1) = >>=-ok (create_user_role kit (link_to user r)) _ w v tt h in
      let t1 = create_user_role-ok (link_to user r) w u1 h1 in
      create_user_roles-links user rs u1 v k1 ∙ rw t1 refl

  delete_user_roles-ok :
      (user : String) (w v : World)
      → Gives (delete_user_roles kit user) w tt v
      → v.tables ≡ with_links (other_links user w.tables.access.user_roles) w.tables
  unfolding delete_user_roles tables_of
  delete_user_roles-ok user w v h =
      let (t, e, s) =
        statement-ok kit.host
          (λ (t : Tables). ok (
            tt,
            with_access
                (record t.access {
                  user_roles = filter (λ l. not (str_eq l.user_id user)) t.access.user_roles;
                })
                t,
          ))
          w v tt h in
      ap (λ (x : World). x.tables) s ∙ sym (ap (tables_of {A = Unit {0}} w.tables) e)

  replace_user_roles-links :
      (user : String) (names : List String) (w v : World)
      → Gives (replace_user_roles kit user names) w tt v
      → (roles : List RoleRecord) × AreNamed names w.tables.access.roles roles
        × (v.tables
            ≡ with_links (links user roles (other_links user w.tables.access.user_roles)) w.tables)
  unfolding replace_user_roles
  replace_user_roles-links user names w v h =
      let (roles, u1, h1, k1) = >>=-ok (find_roles kit names) _ w v tt h in
      let (t1, named) = find_roles-AreNamed names roles w u1 h1 in
      let (u, u2, h2, k2) = >>=-ok (delete_user_roles kit user) _ u1 v tt k1 in
      let t2 = delete_user_roles-ok user u1 u2 h2 in
      (roles, named, create_user_roles-links user roles u2 v k2 ∙ rw (t2, t1) refl)

-- A call of replace_user_roles that succeeds leaves the user with exactly the roles named in the
-- call, when the ids of the stored roles are unique, and leaves every other user with the roles
-- they had.
pub replace_user_roles-HasRole :
    (kit : Kit) (user : String) (names : List String) (w v : World)
    → HasUniqueIds w.tables.access.roles
    → Gives (replace_user_roles kit user names) w tt v
    → (other name : String) → other ≢ user
    → (HasRole v.tables.access user name ↔ In name names)
      × (HasRole v.tables.access other name ↔ HasRole w.tables.access other name)
replace_user_roles-HasRole kit user names w v unique h other name ne =
    let (roles, named, e) = replace_user_roles-links kit user names w v h in
    let a = w.tables.access in
    rw e (
      (replaced-In a user names roles named unique name, In-replaced a user names roles named name),
      (
        replaced-HasRole a user names roles named other name ne,
        HasRole-replaced a user names roles named other name ne,
      ),
    )
