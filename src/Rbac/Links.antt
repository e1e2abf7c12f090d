-- ===== src/Rbac/Links.antt =====
-- The rows that `replaceUserRoles` of internal/security/rbac/service.go leaves, and the roles that
-- they give.
use ai_council.Prelude.{
  ◌≡◌, ◌≢◌, ◌⊎◌, refl, sym, ap, ◌∙◌, inl, inr, String, true, not, List, [], ◌∷◌, filter, str_eq,
  eq_iff, eq_refl, In, In-filter, filter-In, arith, false≢true,
}
use ai_council.Storage.Tables.{RoleRecord, UserRoleRecord, Access, Tables}
use ai_council.Rbac.{with_access}
use ai_council.Rbac.Grants.{HasRole}

-- Roles that stand in the table, with these names.
abbrev pub AreNamed : List String → List RoleRecord → List RoleRecord → Type 0
AreNamed [] table [] = Unit
AreNamed [] table (r ∷ rs) = ⊥
AreNamed (n ∷ ns) table [] = ⊥
AreNamed (n ∷ ns) table (r ∷ rs) = In r table × (r.name ≡ n) × AreNamed ns table rs

-- The links that are made.
abbrev pub links : String → List RoleRecord → List UserRoleRecord → List UserRoleRecord
links user [] old = old
links user (r ∷ rs) old = links user rs (record { user_id = user; role_id = r.id } ∷ old)

abbrev pub link_to : String → RoleRecord → UserRoleRecord
link_to user r = record { user_id = user; role_id = r.id }

abbrev pub with_links : List UserRoleRecord → Tables → Tables
with_links rows t = with_access (record t.access { user_roles = rows }) t

abbrev pub other_links : String → List UserRoleRecord → List UserRoleRecord
other_links user = filter (λ l. not (str_eq l.user_id user))

-- Where the links come from.
links-In :
    (user : String) (roles : List RoleRecord) (old : List UserRoleRecord) (l : UserRoleRecord)
    → In l (links user roles old)
    → (In l old) ⊎ ((r : RoleRecord) × In r roles × (l ≡ link_to user r))
links-In user [] old l i = inl i
links-In user (r ∷ rs) old l i = elim (links-In user rs (link_to user r ∷ old) l i) [
  | inl (inl e) ↦ inr (r, inl refl, e)
  | inl (inr j) ↦ inl j
  | inr (s, j, e) ↦ inr (s, inr j, e)
]

In-links :
    (user : String) (roles : List RoleRecord) (old : List UserRoleRecord) (l : UserRoleRecord)
    → In l old
    → In l (links user roles old)
In-links user [] old l i = i
In-links user (r ∷ rs) old l i = In-links user rs (link_to user r ∷ old) l (inr i)

link_to-In :
    (user : String) (roles : List RoleRecord) (old : List UserRoleRecord) (r : RoleRecord)
    → In r roles
    → In (link_to user r) (links user roles old)
link_to-In user [] old r i = elim i [ ]
link_to-In user (s ∷ rs) old r (inl e) =
    rw e (In-links user rs (link_to user s ∷ old) (link_to user s) (inl refl))
link_to-In user (s ∷ rs) old r (inr i) = link_to-In user rs (link_to user s ∷ old) r i

pub named-In :
    (names : List String) (table roles : List RoleRecord) (name : String)
    → AreNamed names table roles
    → In name names
    → (r : RoleRecord) × In r roles × In r table × (r.name ≡ name)
named-In [] table roles name named i = elim i [ ]
named-In (n ∷ ns) table [] name named i = absurd named
named-In (n ∷ ns) table (r ∷ rs) name (j, e, rest) (inl q) = (r, inl refl, j, e ∙ sym q)
named-In (n ∷ ns) table (r ∷ rs) name (j, e, rest) (inr i) =
    let (s, k, l, p) = named-In ns table rs name rest i in (s, inr k, l, p)

In-named :
    (names : List String) (table roles : List RoleRecord) (r : RoleRecord)
    → AreNamed names table roles
    → In r roles
    → In r table × In r.name names
In-named [] table [] r named i = elim i [ ]
In-named (n ∷ ns) table [] r named i = elim named [ ]
In-named [] table (s ∷ rs) r named i = absurd named
In-named (n ∷ ns) table (s ∷ rs) r (j, e, rest) (inl q) =
    (rw q j, inl (ap (λ (x : RoleRecord). x.name) q ∙ e))
In-named (n ∷ ns) table (s ∷ rs) r (j, e, rest) (inr i) =
    let (k, l) = In-named ns table rs r rest i in (k, inr l)

-- No two roles have the same id.
abbrev pub HasUniqueIds : List RoleRecord → Type 0
HasUniqueIds rows = (r s : RoleRecord) → In r rows → In s rows → r.id ≡ s.id → r ≡ s

module _ (a : Access) (user : String) (names : List String) (roles : List RoleRecord)
    (named : AreNamed names a.roles roles) where
  abbrev pub replaced : Access
  replaced = record a { user_roles = links user roles (other_links user a.user_roles) }

  pub replaced-In :
      HasUniqueIds a.roles → (name : String) → HasRole replaced user name → In name names
  replaced-In unique name h =
      elim (links-In user roles (other_links user a.user_roles) h.link h.link_stored) [
        | inl i ↦
            let (j, t) =
              In-filter (λ (l : UserRoleRecord). not (str_eq l.user_id user)) a.user_roles h.link
                i in
            absurd (false≢true (rw (h.of_user, eq_refl user) at t))
        | inr (r, i, e) ↦
            let (k, l) = In-named names a.roles roles r named i in
            let same : r ≡ h.role =
              unique r h.role k h.role_stored
                (sym (ap (λ (x : UserRoleRecord). x.role_id) e) ∙ h.of_role) in
            rw (same, h.named) at l
      ]

  pub In-replaced : (name : String) → In name names → HasRole replaced user name
  In-replaced name i =
      let (r, j, k, e) = named-In names a.roles roles name named i in
      record {
        role = r;
        role_stored = k;
        named = e;
        link = link_to user r;
        link_stored = link_to-In user roles (other_links user a.user_roles) r j;
        of_role = refl;
        of_user = refl;
      }

  pub replaced-HasRole :
      (other name : String) → other ≢ user → HasRole replaced other name → HasRole a other name
  replaced-HasRole other name ne h =
      elim (links-In user roles (other_links user a.user_roles) h.link h.link_stored) [
        | inl i ↦ record {
          role = h.role;
          role_stored = h.role_stored;
          named = h.named;
          link = h.link;
          link_stored =
              (In-filter (λ (l : UserRoleRecord). not (str_eq l.user_id user)) a.user_roles h.link
                i).0;
          of_role = h.of_role;
          of_user = h.of_user;
        }
        | inr (r, i, e) ↦ absurd (ne (sym h.of_user ∙ ap (λ (x : UserRoleRecord). x.user_id) e))
      ]

  pub HasRole-replaced :
      (other name : String) → other ≢ user → HasRole a other name → HasRole replaced other name
  HasRole-replaced other name ne h = record {
    role = h.role;
    role_stored = h.role_stored;
    named = h.named;
    link = h.link;
    link_stored = In-links user roles (other_links user a.user_roles) h.link (
        filter-In (λ (l : UserRoleRecord). not (str_eq l.user_id user)) a.user_roles h.link
          h.link_stored (differs h.link.user_id (λ q. ne (sym h.of_user ∙ q))));
    of_role = h.of_role;
    of_user = h.of_user;
  }
    where
      differs : (s : String) → s ≢ user → not (str_eq s user) ≡ true
      differs s d = ground (arith, eq_iff s user)
