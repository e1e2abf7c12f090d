-- ===== src/Rbac/Examples.antt =====
-- The service of internal/security/rbac on a small database: one administrator, Ann.
use ai_council.Prelude.{
  ◌≡◌, ◌≢◌, refl, ℕ, String, false, Option, none, some, List, [], ◌∷◌, codes, itoa, pos,
}
use ai_council.Storage.Tables.{UserRecord, AccessTokenRecord, Access, Tables, no_tables}
use ai_council.Storage.Sql.{ok, World, statement, now}
use ai_council.Rbac.{
  Kit, Identity, first, first_or_none, select, create_token, revoke_row, random_token, roles_of,
  permissions_of,
}
use ai_council.Rbac.Password.{
  IdKey, verify_password, check_key, read_parts, parse_phc_uint, decode_phc_base64,
}
use ai_council.Rbac.Tokens.{
  authenticate, by_access_token, by_legacy_token, identity_for_user, revoke_token,
  issue_token_for_user,
}
use ai_council.Rbac.Accounts.{login}
use ai_council.Rbac.Calls.{Call, granting_role, issuing_token}
use ai_council.Rbac.Calls
use ai_council.Rbac.Inversion.{Gives}
use ai_council.Rbac.Admission.{Grounds, authenticate-Grounds}
use ai_council.Rbac.Grants.{HasRightsOf, authenticate-HasRightsOf}
use ai_council.Rbac.Revocation.{revoked_stays_out}
use ai_council.Rbac.Session.{login-authenticate}

abbrev pub sixteen : List ℕ
sixteen = 1 ∷ 2 ∷ 3 ∷ 4 ∷ 5 ∷ 6 ∷ 7 ∷ 8 ∷ 9 ∷ 10 ∷ 11 ∷ 12 ∷ 13 ∷ 14 ∷ 15 ∷ 16 ∷ []

-- A key that does not depend on the password.
abbrev pub toy_key : IdKey
toy_key password salt time memory threads len = 1 ∷ 2 ∷ []

abbrev pub kit : Kit
kit = record {
  host = record { fault = λ n. false; fresh = λ n. itoa (pos n); clock = λ n. n };
  sha256 = λ s. s;
  bytes = codes;
  id_key = toy_key;
  salt = λ n. sixteen;
}

abbrev pub ann : UserRecord
ann = record {
  id = "ann";
  subject = "ann";
  token_hash = "";
  password_hash = some (codes "$argon2id$v=19$m=64,t=1,p=1$AQI$AQI");
  disabled = false;
}

abbrev pub secret : AccessTokenRecord
secret = record {
  id = "k";
  user_id = "ann";
  token_hash = "secret";
  expires_at = 100;
  revoked_at = none;
  created_at = 0;
}

abbrev pub access : Access
access = record {
  users = ann ∷ [];
  roles = record { id = "admin"; name = "admin" } ∷ [];
  user_roles = record { user_id = "ann"; role_id = "admin" } ∷ [];
  permissions = record { id = "admin:*"; name = "admin:*" } ∷ [];
  role_permissions = record { role_id = "admin"; permission_id = "admin:*" } ∷ [];
  tokens = secret ∷ [];
}

abbrev pub tables : Tables
tables = record no_tables { access = access }

abbrev pub world : World
world = record { tables = tables; calls = 0 }

abbrev pub ann_is : Option ℕ → Identity
ann_is expiry = record {
  user_id = "ann";
  subject = "ann";
  roles = "admin" ∷ [];
  permissions = "admin:*" ∷ [];
  expires_at = expiry;
}

admitted : (authenticate kit "secret" world).0 ≡ ok (ann_is (some 100))
unfolding authenticate by_access_token by_legacy_token identity_for_user first first_or_none select
    statement now roles_of permissions_of
admitted = refl

authenticate-Grounds_example : Grounds "secret" access 1 (ann_is (some 100))
authenticate-Grounds_example = authenticate-Grounds kit "secret" world (ann_is (some 100)) admitted

authenticate-HasRightsOf_example : HasRightsOf access (ann_is (some 100))
authenticate-HasRightsOf_example =
    authenticate-HasRightsOf kit "secret" world (ann_is (some 100)) admitted

abbrev revoked_world : World
revoked_world = record {
  tables = record tables {
    access = record access { tokens = record secret { revoked_at = some 1 } ∷ [] };
  };
  calls = 3;
}

revocation : Gives (revoke_token kit "secret") world tt revoked_world
unfolding revoke_token first statement now revoke_row
revocation = (refl, refl)

revoked_stays_out_example :
    (authenticate kit "secret" (Calls.perform_all kit revoked_world (issuing_token "ann" 5 ∷ []))).0
    ≢ ok (ann_is none)
revoked_stays_out_example =
    revoked_stays_out kit "secret" world revoked_world (issuing_token "ann" 5 ∷ []) (ann_is none)
      revocation

abbrev issued : AccessTokenRecord
issued = record {
  id = "2";
  user_id = "ann";
  token_hash = "1";
  expires_at = 13;
  revoked_at = none;
  created_at = 3;
}

abbrev after_login : World
after_login = record {
  tables = record tables { access = record access { tokens = issued ∷ secret ∷ [] } };
  calls = 8;
}

logs_in :
    Gives {A = String × Identity}
      (login kit "ann" "pw" 10)
      world
      ("1", ann_is (some 13))
      after_login
unfolding login issue_token_for_user identity_for_user first select statement now roles_of
    permissions_of random_token create_token verify_password read_parts check_key parse_phc_uint
    decode_phc_base64 itoa
logs_in = (refl, refl)

login-authenticate_example : (authenticate kit "1" after_login).0 ≡ ok (ann_is (some 13))
login-authenticate_example =
    login-authenticate kit "ann" "pw" 10 world after_login after_login "1" (ann_is (some 13)) 13
      logs_in refl (λ n h. refl) refl refl
