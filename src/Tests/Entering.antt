-- ===== src/Tests/Entering.antt =====
-- The authentication theorems at concrete logins.
use cubozoa.Prelude.{
  ◌≡◌, refl, true, false, [], ◌∷◌, Str, codes, str_eq, str_eq_iff, ok, err, arith,
}
use cubozoa.Prelude.Map.{get}
use cubozoa.Store.Models.{User}
use cubozoa.Store.State.{JsonStore}
use cubozoa.Store.Accounts.{get_user_by_name}
use cubozoa.Store.Invariant.{UsersValid}
use cubozoa.Auth.Service.{
  authenticate, verify_credentials, is_locked, account_locked, invalid_credentials,
}
use cubozoa.Auth.Access.{authenticate_sound, authenticate_uniform}
use cubozoa.Auth.Lockout.{Stored, attempt_all, lockout_after_threshold}
use cubozoa.Auth.Sessions.{ClientInfo, validate_token, logout}
use cubozoa.Auth.Tokens.{SessionsValid, validate_token-logout}
use cubozoa.Auth.TwoFactor.{begin_totp_setup, activate_totp, disable_totp, take_out}
use cubozoa.Tests.Fixtures.{host, service, alice, mem, store}

abbrev name : Str
name = codes "ALICE"

abbrev right : Str
right = codes "wonderland"

abbrev wrong : Str
wrong = codes "rabbit"

-- A store that holds one user.
abbrev pub holding : User → JsonStore
holding u = record store { mem = record mem { users = (codes "u1", u) ∷ [] } }

abbrev pub locked : User
locked = record alice { failed_login_attempts = 3; locked_until = 100 }

-- With two factors, under the secret KEY.
abbrev guarded : User
guarded = record alice {
  totp_enabled = true;
  totp_secret = codes "KEY";
  recovery_code_hashes = codes "#spare" ∷ [];
}

one-UsersValid : (u : User) → u.id ≡ codes "u1" → UsersValid host.fold (holding u).mem.users
unfolding get
one-UsersValid u e = record {
  is_map = (refl, tt);
  filed = λ k v g. ground (arith, str_eq_iff (codes "u1") k, e);
  distinct =
      λ j k v w gj gk same. ground (arith, str_eq_iff (codes "u1") j, str_eq_iff (codes "u1") k);
}

authenticate_sound_example :
    (u : User) × (get_user_by_name host.fold name store ≡ ok u)
    × (is_locked 50 u ≡ false)
    × (verify_credentials host 50 u right ≡ true)
    × (record alice { last_login_at = 50 }
        ≡ record u { failed_login_attempts = 0; locked_until = 0; last_login_at = 50 })
unfolding authenticate get_user_by_name str_eq is_locked verify_credentials
authenticate_sound_example =
    authenticate_sound host service 50 name right store {v = record alice { last_login_at = 50 }}
      refl

authenticate_uniform_example :
    (authenticate host service 50 name wrong store).0
    ≡ (authenticate host service 50 (codes "bob") wrong store).0
unfolding get_user_by_name str_eq is_locked verify_credentials
authenticate_uniform_example =
    authenticate_uniform host service 50 name (codes "bob") wrong store {u = alice} refl refl refl
      refl (ground arith)

pub alice-Stored : Stored host.fold name alice store
unfolding get str_eq
alice-Stored = record { valid = one-UsersValid alice refl; kept = refl; named = refl }

lockout_after_threshold_example :
    authenticate host service 60 name right
      (attempt_all host service name ((10, wrong) ∷ (11, wrong) ∷ (12, wrong) ∷ []) store)
    ≡ (
      err account_locked,
      attempt_all host service name ((10, wrong) ∷ (11, wrong) ∷ (12, wrong) ∷ []) store,
    )
unfolding verify_credentials str_eq
lockout_after_threshold_example =
    lockout_after_threshold host service name ((10, wrong) ∷ (11, wrong) ∷ []) 12 wrong alice store
      60 right alice-Stored refl refl (refl, (refl, (refl, tt))) (ground arith)

abbrev client : ClientInfo
client = record {
  client = codes "Web";
  device = codes "Firefox";
  device_id = codes "d";
  app_version = codes "1";
  remote_addr = codes "10.0.0.1";
}

one-SessionsValid : SessionsValid store.mem.sessions
unfolding get
one-SessionsValid = record {
  is_map = (refl, tt);
  filed = λ k v g. ground (arith, str_eq_iff (codes "s1") k);
  distinct =
      λ j k v w gj gk same. ground (arith, str_eq_iff (codes "s1") j, str_eq_iff (codes "s1") k);
}

validate_token-logout_example :
    (validate_token host 9 (codes "tok") (logout host (codes "tok") store).1).0
    ≡ err invalid_credentials
validate_token-logout_example = validate_token-logout host 9 (codes "tok") store one-SessionsValid
