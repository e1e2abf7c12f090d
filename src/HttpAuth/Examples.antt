-- ===== src/HttpAuth/Examples.antt =====
-- Requests that internal/transport/council/auth.go lets through.
use ai_council.Prelude.{◌≡◌, ◌⊎◌, refl, true, Option, some, []}
use ai_council.Storage.Sql.{ok, statement, now}
use ai_council.Rbac.{Identity, first, first_or_none, select, roles_of, permissions_of}
use ai_council.Rbac.Examples.{kit, world, tables, ann_is}
use ai_council.Rbac.Tokens.{authenticate, by_access_token, by_legacy_token, identity_for_user}
use ai_council.HttpAuth.{
  HttpRequest, passed, default_session_options, is_public_rbac_path, rbac_route_permission,
  identity_has_permission, authenticate_request, rbac_auth,
}
use ai_council.HttpAuth.Header.{bearer}
use ai_council.HttpAuth.Decision.{IsEntitled, rbac_auth-passed}

abbrev administration : HttpRequest
administration = record {
  method = "GET";
  path = "/api/v1/admin/users";
  authorization = "  bEARER  secret ";
  cookies = [];
}

let_through :
    (rbac_auth kit default_session_options true administration world).0
    ≡ passed (some (ann_is (some 100)))
unfolding rbac_auth authenticate by_access_token by_legacy_token identity_for_user first
    first_or_none select statement now roles_of permissions_of is_public_rbac_path
    authenticate_request bearer rbac_route_permission identity_has_permission
let_through = refl

rbac_auth-passed_example :
    (is_public_rbac_path "GET" "/api/v1/admin/users" ≡ true)
    ⊎ ((i : Identity) × ((authenticate_request kit default_session_options administration world).0
          ≡ ok i)
        × (◌≡◌ {A = Option Identity} (some (ann_is (some 100))) (some i))
        × IsEntitled tables administration i)
rbac_auth-passed_example =
    rbac_auth-passed kit default_session_options administration true world
      (some (ann_is (some 100))) let_through
