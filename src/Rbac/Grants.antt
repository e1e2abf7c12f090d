-- ===== src/Rbac/Grants.antt =====
-- What the queries of internal/security/rbac/service.go promise: the roles that a user has, and the
-- permissions that roles grant, as relations between rows.
use ai_council.Prelude.{
  ◌≡◌, refl, sym, ap, ℕ, suc, String, Bool, true, ◌&&◌, List, In, any-In, In-any, In-filter,
  filter-In, In-map, map-In, In-order_by, order_by-In, In-distinct, distinct-In, order_by, map,
  filter, any, str_eq, eq_iff, eq_refl, arith, ◌↔◌, distinct,
}
use ai_council.Storage.Tables.{
  UserRecord, RoleRecord, UserRoleRecord, PermissionRecord, RolePermissionRecord, Access,
}
use ai_council.Storage.Sql.{ok, World}
use ai_council.Rbac.{Kit, Identity, roles_of, permissions_of, reaches}
use ai_council.Rbac.Tokens.{authenticate}
use ai_council.Rbac.Admission.{Grounds, by_row, by_user, authenticate-Grounds}

-- The user has a role with this name.
pub record HasRole (a : Access) (user name : String) : Type 0 where
  pub role : RoleRecord
  pub role_stored : In role a.roles
  pub named : role.name ≡ name
  pub link : UserRoleRecord
  pub link_stored : In link a.user_roles
  pub of_role : link.role_id ≡ role.id
  pub of_user : link.user_id ≡ user

-- Some role that the user is linked to grants the permission with this name.
pub record IsGranted (a : Access) (user name : String) : Type 0 where
  pub permission : PermissionRecord
  pub permission_stored : In permission a.permissions
  pub named : permission.name ≡ name
  pub grant : RolePermissionRecord
  pub grant_stored : In grant a.role_permissions
  pub of_permission : grant.permission_id ≡ permission.id
  pub link : UserRoleRecord
  pub link_stored : In link a.user_roles
  pub of_role : link.role_id ≡ grant.role_id
  pub of_user : link.user_id ≡ user

-- `SELECT DISTINCT name … ORDER BY name`
module _ {R : Type 0} (name_of : R → String) (test : R → Bool) (rows : List R) where
  names-In :
      (name : String)
      → In name (distinct (order_by (λ n. n) (map name_of (filter test rows))))
      → (r : R) × In r rows × (test r ≡ true) × (name_of r ≡ name)
  names-In name i =
      let (r, j, e) = In-map name_of (filter test rows) name (
        In-order_by (λ n. n) (map name_of (filter test rows)) name
          (In-distinct (order_by (λ n. n) (map name_of (filter test rows))) name i)) in
      let (k, t) = In-filter test rows r j in (r, k, t, sym e)

  In-names :
      (r : R)
      → In r rows
      → test r ≡ true
      → In (name_of r) (distinct (order_by (λ n. n) (map name_of (filter test rows))))
  In-names r i t = distinct-In (order_by (λ n. n) (map name_of (filter test rows))) (name_of r) (
      order_by-In (λ n. n) (map name_of (filter test rows)) (name_of r)
        (map-In name_of (filter test rows) r (filter-In test rows r i t)))

both : (s t u v : String) → (str_eq s t && str_eq u v) ≡ true → (s ≡ t) × (u ≡ v)
both s t u v h = ground (arith, eq_iff s t, eq_iff u v)

both_true : (s t u v : String) → s ≡ t → u ≡ v → (str_eq s t && str_eq u v) ≡ true
both_true s t u v d e = rw (d, e, eq_refl t, eq_refl v) refl

module _ (a : Access) (user name : String) where
  pub In-roles_of : In name (roles_of a user) → HasRole a user name
  unfolding roles_of
  In-roles_of i =
      let (r, stored, t, e) = names-In (λ (r : RoleRecord). r.name) _ a.roles name i in
      let (l, linked, u) = any-In _ a.user_roles t in
      let (p, q) = both l.role_id r.id l.user_id user u in
      record {
        role = r;
        role_stored = stored;
        named = e;
        link = l;
        link_stored = linked;
        of_role = p;
        of_user = q;
      }

  pub roles_of-In : HasRole a user name → In name (roles_of a user)
  unfolding roles_of
  roles_of-In h = rw (← h.named) (
      In-names (λ (r : RoleRecord). r.name) _ a.roles h.role h.role_stored
        (In-any (λ (l : UserRoleRecord). str_eq l.role_id h.role.id && str_eq l.user_id user)
          a.user_roles h.link h.link_stored
          (both_true h.link.role_id h.role.id h.link.user_id user h.of_role h.of_user)))

  reaches-IsGranted :
      (p : PermissionRecord) (l : RolePermissionRecord)
      → In p a.permissions
      → p.name ≡ name
      → In l a.role_permissions
      → reaches a user p l ≡ true
      → IsGranted a user name
  reaches-IsGranted p l stored e granted t =
      let linked : any (λ (k : UserRoleRecord). str_eq k.role_id l.role_id && str_eq k.user_id user)
            a.user_roles
          ≡ true =
        ground arith in
      let (k, i, u) = any-In _ a.user_roles linked in
      let (q, v) = both k.role_id l.role_id k.user_id user u in
      record {
        permission = p;
        permission_stored = stored;
        named = e;
        grant = l;
        grant_stored = granted;
        of_permission = ground (arith, eq_iff l.permission_id p.id);
        link = k;
        link_stored = i;
        of_role = q;
        of_user = v;
      }

  pub In-permissions_of : In name (permissions_of a user) → IsGranted a user name
  unfolding permissions_of
  In-permissions_of i =
      let (p, stored, t, e) = names-In (λ (p : PermissionRecord). p.name) _ a.permissions name i in
      let (l, granted, u) = any-In _ a.role_permissions t in
      reaches-IsGranted p l stored e granted u

  pub permissions_of-In : IsGranted a user name → In name (permissions_of a user)
  unfolding permissions_of
  permissions_of-In g =
      let linked =
        In-any (λ (k : UserRoleRecord). str_eq k.role_id g.grant.role_id && str_eq k.user_id user)
          a.user_roles g.link g.link_stored
          (both_true g.link.role_id g.grant.role_id g.link.user_id user g.of_role g.of_user) in
      rw (← g.named) (
        In-names (λ (p : PermissionRecord). p.name) _ a.permissions g.permission g.permission_stored
          (In-any (reaches a user g.permission) a.role_permissions g.grant g.grant_stored
            (rw (g.of_permission, eq_refl g.permission.id, linked) refl)))

-- The rights of an identity are exactly those that the rows of the database give to its user.
pub record HasRightsOf (a : Access) (i : Identity) : Type 0 where
  pub roles : (name : String) → In name i.roles ↔ HasRole a i.user_id name
  pub permissions : (name : String) → In name i.permissions ↔ IsGranted a i.user_id name

identity_of-HasRightsOf :
    (a : Access) (i : Identity) (user : UserRecord)
    → i.user_id ≡ user.id
    → i.roles ≡ roles_of a user.id
    → i.permissions ≡ permissions_of a user.id
    → HasRightsOf a i
identity_of-HasRightsOf a i user u r p = record {
  roles = λ name. rw (u, r) (In-roles_of a user.id name, roles_of-In a user.id name);
  permissions =
      λ name. rw (u, p) (In-permissions_of a user.id name, permissions_of-In a user.id name);
}

module _ (kit : Kit) where
  Grounds-HasRightsOf :
      (hash : String) (a : Access) (time : ℕ) (i : Identity)
      → Grounds hash a time i
      → HasRightsOf a i
  Grounds-HasRightsOf hash a time i (by_row row user c s e r) =
      identity_of-HasRightsOf a i user (ap (λ (x : Identity). x.user_id) r)
        (ap (λ (x : Identity). x.roles) r) (ap (λ (x : Identity). x.permissions) r)
  Grounds-HasRightsOf hash a time i (by_user holder user n s t e r) =
      identity_of-HasRightsOf a i user (ap (λ (x : Identity). x.user_id) r)
        (ap (λ (x : Identity). x.roles) r) (ap (λ (x : Identity). x.permissions) r)

  -- Whoever is let in has the roles and the permissions that the database gives to the user by way of
  -- roles, and no others.
  pub authenticate-HasRightsOf :
      (token : String) (w : World) (i : Identity)
      → (authenticate kit token w).0 ≡ ok i
      → HasRightsOf w.tables.access i
  authenticate-HasRightsOf token w i h =
      Grounds-HasRightsOf (kit.sha256 token) w.tables.access (kit.host.clock (suc w.calls)) i
        (authenticate-Grounds kit token w i h)
