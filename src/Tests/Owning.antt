-- ===== src/Tests/Owning.antt =====
-- Requests and their effects on watched data at concrete ones.
use cubozoa.Prelude.{
  ◌≡◌, refl, ap, true, false, subst, none, some, [], ◌∷◌, str_eq, codes, Result, ok, err, All,
  arith, if◌then◌else◌,
}
use cubozoa.Prelude.Map.{Map, get}
use cubozoa.Store.Models.{User, Session, MediaItem, UserItemData}
use cubozoa.Store.State.{JsonStore, empty_mem}
use cubozoa.Store.Playback.{get_user_item_data}
use cubozoa.Store.Reads.{Lacks0}
use cubozoa.Auth.Service.{AuthError}
use cubozoa.Auth.Sessions.{validate_token}
use cubozoa.UserData.{get_data}
use cubozoa.UserData.View.{IsFiled}
use cubozoa.Jellyfin.AuthHeader.{parse_client_auth}
use cubozoa.Server.RateLimit.{new_rate_limiter}
use cubozoa.Server.Login.{HttpRequest, World, serve}
use cubozoa.Server.Routes.{played, route_handler}
use cubozoa.Server.Ownership.{serve_others_data}
use cubozoa.Server.NextUp.{next_up}
use cubozoa.Server.Unwatched.{is_watched, next_up-IsUnwatched}
use cubozoa.Tests.Fixtures.{host, alice, session, film, watched, store}

-- A second account, which is no administrator, and its session.
abbrev bob : User
bob = record alice { id = codes "u2"; name = codes "Bob"; is_admin = false }

abbrev bobs : Session
bobs = record session { id = codes "s2"; user_id = codes "u2"; token_hash = codes "#bob" }

abbrev start : JsonStore
start = record store {
  mem = record empty_mem {
    users = (codes "u2", bob) ∷ (codes "u1", alice) ∷ [];
    sessions = (codes "s2", bobs) ∷ [];
  };
}

abbrev world : World
world = record { limiter = new_rate_limiter; store = start }

abbrev request : HttpRequest
request = record {
  auth = record {
    header = λ k. if str_eq k (codes "X-Emby-Token") then codes "bob" else [];
    api_key = [];
  };
  peer = record {
    header = λ k. [];
    remote_addr = codes "10.0.0.2:99";
    split_host_port = some (codes "10.0.0.2");
  };
  body = none;
}

start-IsFiled : IsFiled start
unfolding get_user_item_data get
start-IsFiled user item d hu e = absurd (ground arith)

u1-Lacks0 : Lacks0 (codes "u1")
u1-Lacks0 = (ground arith, (ground arith, tt))

u2-Lacks0 : Lacks0 (codes "u2")
u2-Lacks0 = (ground arith, (ground arith, tt))

abbrev user_of : Result AuthError (User × Session) → User
user_of (ok (u, sess)) = u
user_of (err x) = alice

abbrev IsOther : User → Type 0
IsOther u = (u.is_admin ≡ false) × Lacks0 u.id × (str_eq u.id (codes "u1") ≡ false)

bob-IsOther : IsOther bob
unfolding str_eq
bob-IsOther = (refl, u2-Lacks0, refl)

entered_as_bob :
    (u : User) (sess : Session)
    → (validate_token host 9 (parse_client_auth host request.auth).token start).0 ≡ ok (u, sess)
    → bob ≡ u
unfolding validate_token parse_client_auth str_eq get
    cubozoa.Store.Accounts.get_session_by_token_hash cubozoa.Store.Accounts.get_user_by_id
entered_as_bob u sess e = ap user_of e

-- Bob asks to mark a film of Alice's as watched.
serve_others_data_example :
    get_data
      (codes "u1")
      (codes "i1")
      (serve host 9 request (route_handler host 9 (played (codes "u1") (codes "i1"))) world).1.store
    ≡ get_data (codes "u1") (codes "i1") start
serve_others_data_example =
    serve_others_data host 9 (played (codes "u1") (codes "i1")) request world (codes "u1")
      (codes "i1") refl start-IsFiled u1-Lacks0
      (λ u sess e. subst IsOther (entered_as_bob u sess e) bob-IsOther)

abbrev pilot : MediaItem
pilot = record film { type = codes "Episode"; series_id = codes "se" }

abbrev second : MediaItem
second = record pilot { id = codes "i2" }

abbrev seen : Map UserItemData
seen = (codes "i1", record watched { played = true }) ∷ []

next_up-IsUnwatched_example :
    All (λ e. is_watched seen e ≡ false) (next_up (pilot ∷ second ∷ []) seen)
next_up-IsUnwatched_example = next_up-IsUnwatched seen (pilot ∷ second ∷ [])
