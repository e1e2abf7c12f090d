-- ===== src/Storage/Tables.antt =====
-- internal/storage/sqlite/models.go and approval_repository.go: the rows, and the state of the
-- database as one list of rows for each table, the last row that was created first. An instant is
-- a natural number.
use ai_council.Prelude.{ℕ, ℤ, String, Bool, Option, List, [], ◌∷◌, if◌then◌else◌, suc}
use ai_council.RunState.{State}

pub record RunRecord : Type 0 where
  pub id : String
  pub state : State
  pub version : ℕ  -- uint64

pub record AuditRecord : Type 0 where
  pub id : String
  pub run_id : String
  pub sequence : ℕ  -- uint64
  pub kind : String
  pub actor : String
  pub detail : String

pub record ApprovalRecord : Type 0 where
  pub id : String
  pub run_id : String
  pub plan_version : ℤ
  pub snapshot_hash : String
  pub decision : String
  pub actor : String
  pub created_at : ℕ
  pub invalidated_at : Option ℕ
  pub consumed_at : Option ℕ

pub record TaskRecord : Type 0 where
  pub id : String
  pub workspace_id : String
  pub requirement : String
  pub acceptance_json : String
  pub state : String
  pub plan_version : ℤ
  pub approval_hash : String
  pub approval_granted : Bool
  pub plan_json : String
  pub verification_json : String

pub record EventRecord : Type 0 where
  pub run_id : String
  pub sequence : ℕ  -- int64, and never negative
  pub kind : String
  pub payload : String
  pub created_at : ℕ

-- An account: `created_at` is never read, and left out. A hash that is stored is a sequence of bytes.
pub record UserRecord : Type 0 where
  pub id : String
  pub subject : String
  pub token_hash : String
  pub password_hash : Option (List ℕ)
  pub disabled : Bool

pub record RoleRecord : Type 0 where
  pub id : String
  pub name : String

pub record UserRoleRecord : Type 0 where
  pub user_id : String
  pub role_id : String

pub record PermissionRecord : Type 0 where
  pub id : String
  pub name : String

pub record RolePermissionRecord : Type 0 where
  pub role_id : String
  pub permission_id : String

pub record AccessTokenRecord : Type 0 where
  pub id : String
  pub user_id : String
  pub token_hash : String
  pub expires_at : ℕ
  pub revoked_at : Option ℕ
  pub created_at : ℕ

-- The tables of the access control.
pub record Access : Type 0 where
  pub users : List UserRecord
  pub roles : List RoleRecord
  pub user_roles : List UserRoleRecord
  pub permissions : List PermissionRecord
  pub role_permissions : List RolePermissionRecord
  pub tokens : List AccessTokenRecord

pub record Tables : Type 0 where
  pub runs : List RunRecord
  pub audits : List AuditRecord
  pub approvals : List ApprovalRecord
  pub tasks : List TaskRecord
  pub events : List EventRecord
  pub access : Access

abbrev pub no_access : Access
no_access = record {
  users = [];
  roles = [];
  user_roles = [];
  permissions = [];
  role_permissions = [];
  tokens = [];
}

abbrev pub no_tables : Tables
no_tables = record {
  runs = [];
  audits = [];
  approvals = [];
  tasks = [];
  events = [];
  access = no_access;
}

-- `UPDATE … SET … WHERE …`
module _ {R : Type 0} (test : R → Bool) where
  abbrev pub update_where : (R → R) → List R → List R
  update_where change [] = []
  update_where change (r ∷ rs) = (if test r then change r else r) ∷ update_where change rs

  -- The number of rows that a statement with this `WHERE` affects.
  abbrev pub rows_affected : List R → ℕ
  rows_affected [] = 0
  rows_affected (r ∷ rs) = if test r then suc (rows_affected rs) else rows_affected rs
