-- ===== src/Tests/Requests.antt =====
-- The theorems on logins and requests at concrete requests.
use cubozoa.Prelude.{
  ℕ, ◌≡◌, refl, Bool, true, false, Option, none, some, List, [], ◌∷◌, ◌++◌, Str, str_eq, codes, ok,
  err, if◌then◌else◌, arith,
}
use cubozoa.Auth.Service.{invalid_credentials}
use cubozoa.Auth.Sessions.{validate_token}
use cubozoa.Jellyfin.AuthHeader.{no_auth, parse_client_auth}
use cubozoa.Server.RateLimit.{new_rate_limiter, allow}
use cubozoa.Server.Login.{
  HttpRequest, World, Context, reply, handle_authenticate_by_name, with_auth_context, serve,
  require_admin,
}
use cubozoa.Server.Admission.{require_admin_blocks, login_enters, logged_in}
use cubozoa.Tests.Fixtures.{host, service, alice, store}
use cubozoa.Tests.Entering.{alice-Stored}

-- A request that carries a bare token.
abbrev bearing : Str → HttpRequest
bearing token = record {
  auth = record {
    header = λ k. if str_eq k (codes "X-Emby-Token") then token else [];
    api_key = [];
  };
  peer = record {
    header = λ k. [];
    remote_addr = codes "10.0.0.2:99";
    split_host_port = some (codes "10.0.0.2");
  };
  body = none;
}

abbrev world : World
world = record { limiter = new_rate_limiter; store = store }

abbrev context : Context
context = record { client_auth = no_auth; user = none; session = none }

forged_refused :
    (validate_token host 9 (parse_client_auth host (bearing (codes "forged")).auth).token store).0
    ≡ err invalid_credentials
unfolding validate_token parse_client_auth str_eq cubozoa.Store.Accounts.get_session_by_token_hash
forged_refused = refl

require_admin_blocks_example :
    serve host 9 (bearing (codes "forged")) (require_admin (λ ctx w. (reply 200, w))) world
    ≡ serve host 9 (bearing (codes "forged")) (require_admin (λ ctx w. (reply 204, w))) world
require_admin_blocks_example =
    require_admin_blocks host 9 (bearing (codes "forged")) (λ ctx w. (reply 200, w))
      (λ ctx w. (reply 204, w)) world (λ u sess e. absurd (ground (arith, forged_refused, e)))

login_enters_example :
    (with_auth_context host 60
      (bearing (codes "new"))
      (handle_authenticate_by_name host service false 50
        (some (codes "new"))
        (some (codes "s2"))
        (record (bearing []) {
          body = some (record { username = codes "ALICE"; pw = codes "wonderland" });
        })
        context
        world).1.store).0.user
    ≡ some (logged_in 50 alice)
unfolding parse_client_auth str_eq allow cubozoa.Prelude.Map.get cubozoa.Auth.Service.is_locked
    cubozoa.Auth.Service.verify_credentials
login_enters_example =
    login_enters host service false 50 60 (codes "new") (codes "s2") context (bearing [])
      (bearing (codes "new")) (codes "ALICE") (codes "wonderland") world alice refl refl
      alice-Stored refl refl refl refl
