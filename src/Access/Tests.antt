-- ===== src/Access/Tests.antt =====
-- Runs of the guard and of the store of sessions.
use company_erp.Base.{
  arith, ◌<◌, ◌≡◌, refl, String, true, false, Option, none, some, [], ◌∷◌, String-discrete, ite,
}
use company_erp.Base.Text.{codes, starts_with, includes, ends_with}
use company_erp.Access.Base32.{base32_encode, encode_from, drain, symbol, base32_decode}
use company_erp.Access.Base32.RoundTrip.{base32_decode-base32_encode}
use company_erp.Access.Base32.Draining.{drain_enough}
use company_erp.Access.Roles.{
  Role, warehouse, viewer, inventory, project_sites, permission_matrix, any_role, permission_level,
  can_manage, same_role,
}
use company_erp.Access.Paths.{
  read, manage, RoutePermission, route_permission, route_permission_table, level_for_method,
  is_reading, is_public_path, is_self_service_path,
}
use company_erp.Access.Paths.Levels.{route_permission-manage}
use company_erp.Access.Sessions.{
  Account, AccountStatus, session_for_request, resolve_session_user, csrf_token_matches,
  account_can_login, auth_session_is_active, is_before_password, touched,
}
use company_erp.Access.Sessions.Memory.{
  Sessions, get_session, set_session, change_first, change_all, revoked, revoked_for, CreateInput,
  new_session, create_session, touch_session, revoke_session, apply, run, memory_store,
}
use company_erp.Access.Sessions.Memory.Replay.{run-replay, replay}
use company_erp.Access.Sessions.Memory.Revocation.{revoke_sessions_for_account-final}
use company_erp.Access.Guard.{
  Request, Clock, admitted, is_unsafe, allows_unauthenticated, is_allowed, check_permission,
  csrf_holds, session_verdict, check_session, check_request,
}
use company_erp.Access.Guard.Admission.{VerdictEffect, check_request-Effect}
use company_erp.Access.Guard.Managers.{check_request-manager}

-- In place of a digest, the text itself.
abbrev digest : String → String
digest text = text

abbrev input_of : String → String → CreateInput
input_of account token = record {
  user_account_id = account;
  token_hash = token;
  csrf_token_hash = some "csrf";
  expires_at = 9000;
  created_at = 1000;
  ip = none;
  user_agent = none;
}

abbrev stored : Sessions
unfolding new_session
stored =
    ("t1", new_session "s1" (input_of "a1" "t1"))
    ∷ ("t2", new_session "s2" (input_of "a2" "t2"))
    ∷ []

abbrev keeper : Role → Account
keeper role = record {
  id = "a1";
  roles = role ∷ [];
  status = AccountStatus.active;
  employee_status = none;
  password_changed_at = none;
}

abbrev accounts : Role → String → Option Account
accounts role id = ite (String-discrete id "a1") (some (keeper role)) none

abbrev posting : Request
posting = record {
  pathname = "/api/inventory-movements";
  method = "POST";
  cookie = some "t1";
  csrf_header = some "csrf";
}

abbrev times : Clock
times = record { resolved = 2000; seen = 2001; rechecked = 2002 }

abbrev later : Sessions
unfolding change_first touched new_session
later = change_first "s1" (touched 2001) stored

keeper_admitted :
    check_request digest memory_store false (some (accounts warehouse)) posting times stored
    ≡ (admitted (keeper warehouse), later)
unfolding check_request allows_unauthenticated is_public_path starts_with is_reading check_session
    resolve_session_user session_for_request get_session auth_session_is_active account_can_login
    is_before_password String-discrete session_verdict csrf_holds is_unsafe csrf_token_matches
    check_permission is_self_service_path route_permission route_permission_table level_for_method
    includes ends_with is_allowed can_manage permission_level permission_matrix any_role same_role
    change_first touched new_session
keeper_admitted = refl

check_request-manager_example :
    (permission : RoutePermission) × (route_permission posting.pathname posting.method
      ≡ some permission)
    × (any_role (warehouse ∷ []) (permission_matrix permission.area).manage ≡ true)
unfolding is_reading is_self_service_path starts_with
check_request-manager_example =
    check_request-manager digest memory_store false (accounts warehouse) posting times stored later
      (keeper warehouse) keeper_admitted refl refl refl

check_request-Effect_example :
    VerdictEffect digest memory_store false
      (accounts viewer)
      posting
      times
      stored
      (check_request digest memory_store false (some (accounts viewer)) posting times stored)
check_request-Effect_example =
    check_request-Effect digest memory_store false (accounts viewer) posting times stored

-- A rule that comes earlier takes the path of the compliance summary.
compliance_summary :
    route_permission "/api/project-sites/1/compliance-summary" "GET"
    ≡ some (record { area = project_sites; required_level = read })
unfolding route_permission route_permission_table level_for_method is_reading starts_with includes
    ends_with
compliance_summary = refl

abbrev managing : RoutePermission
managing = record { area = inventory; required_level = manage }

route_permission-manage_example : managing.required_level ≡ manage
unfolding route_permission route_permission_table level_for_method is_reading starts_with includes
    ends_with
route_permission-manage_example =
    route_permission-manage "/api/inventory-movements" "POST" managing refl refl refl

run-replay_example :
    get_session (
      run
        (create_session "s3" (input_of "a1" "t3") ∷ revoke_session "s2" 3000 "logout" ∷ [])
        stored)
    ≡ replay
        (create_session "s3" (input_of "a1" "t3") ∷ revoke_session "s2" 3000 "logout" ∷ [])
        (get_session stored)
unfolding apply set_session new_session
run-replay_example =
    run-replay (create_session "s3" (input_of "a1" "t3") ∷ revoke_session "s2" 3000 "logout" ∷ [])
      stored ((refl, tt), (tt, tt)) ((refl, (refl, tt)), (tt, tt))

revoke_sessions_for_account-final_example :
    auth_session_is_active (revoked 3000 "password" (new_session "s1" (input_of "a1" "t1"))) 4000
    ≡ false
unfolding run apply change_all revoked_for get_session new_session revoked change_first touched
revoke_sessions_for_account-final_example =
    revoke_sessions_for_account-final "a1" 3000 "password" (touch_session "s2" 3500 ∷ []) stored
      "t1" (revoked 3000 "password" (new_session "s1" (input_of "a1" "t1"))) 4000 tt refl refl

-- RFC 4648: "foob" is MZXW6YQ.
encoded : base32_encode (codes "foob") ≡ codes "MZXW6YQ"
unfolding base32_encode encode_from drain symbol
encoded = refl

base32_decode-base32_encode_example :
    base32_decode (λ cs. cs) (base32_encode (codes "foob")) ≡ some (codes "foob")
base32_decode-base32_encode_example =
    base32_decode-base32_encode (λ cs. cs) (codes "foob") (λ cs all. refl)
      (omega arith, (omega arith, (omega arith, (omega arith, tt))))

drain_enough_example : (drain 20 12 4095 ≡ drain 12 12 4095) × ((drain 20 12 4095).1 < 5)
drain_enough_example = drain_enough 20 12 4095 (omega arith)
