-- ===== src/Server/Ownership.antt =====
-- Whose watched data a request to internal/server can change.
use cubozoa.Prelude.{
  ◌≡◌, ◌⊎◌, inl, inr, refl, ap, ◌∙◌, Bool, false, ◌||◌, Option, none, some, Str, is_empty, str_eq,
  Result, ok, err, arith, Bool-cases, Result-cases, ℤ,
}
use cubozoa.Host.{Host}
use cubozoa.Store.Models.{Time, User, Session, UserItemData}
use cubozoa.Store.State.{JsonStore}
use cubozoa.Store.Accounts.{get_user_by_id}
use cubozoa.Store.Catalog.{get_item}
use cubozoa.Store.Reads.{Lacks0}
use cubozoa.Auth.Service.{AuthError}
use cubozoa.Auth.Sessions.{validate_token}
use cubozoa.Auth.TwoFactor.{totp_enabled}
use cubozoa.UserData.{get_data, mark_played, mark_unplayed, set_favorite}
use cubozoa.UserData.View
use cubozoa.UserData.View.{IsFiled, Change, report, play, unplay, exec, get_data-exec}
use cubozoa.Jellyfin.AuthHeader.{ClientAuth, parse_client_auth}
use cubozoa.Server.Login.{
  HttpRequest, World, Context, Response, enabled_body, reply, serve, with_auth_context,
  require_auth, require_admin,
}
use cubozoa.Server.Users.{effective_user_id, for_user, changed, resume_answer}
use cubozoa.Server.Routes
use cubozoa.Server.Routes.{Route, route_handler}
use cubozoa.Server.Untouched.{
  get_data-Keeps, IsFiled-Keeps, validate_token-Keeps, logout-Keeps, begin_totp_setup-Keeps,
  activate_totp-Keeps, disable_totp-Keeps,
}

-- A path names an item: a wildcard of net/http matches no empty segment.
abbrev pub NamesItem : Route → Type 0
NamesItem (Routes.played user item) = is_empty item ≡ false
NamesItem (Routes.unplayed user item) = is_empty item ≡ false
NamesItem (Routes.favorite fav user item) = is_empty item ≡ false
NamesItem route = Unit

-- A user who is no administrator acts on itself or on nobody.
effective_user_id_self :
    (u : User) (path : Str)
    → u.is_admin ≡ false
    → (effective_user_id u path ≡ none) ⊎ (effective_user_id u path ≡ some u.id)
unfolding effective_user_id
effective_user_id_self u path h = elim (Bool-cases (is_empty path || str_eq path u.id)) [
  | inl e ↦ inr (rw (e, effective_user_id) refl)
  | inr e ↦ inl (rw (e, h, effective_user_id) refl)
]

-- A change of one user's data leaves another user's.
exec-other :
    (c : Change) (now : Time) (user item u i : Str) (s : JsonStore)
    → IsFiled s
    → Lacks0 user
    → Lacks0 u
    → is_empty item ≡ false
    → str_eq user u ≡ false
    → get_data u i (exec c now user item s) ≡ get_data u i s
exec-other c now user item u i s f hu h e n =
    get_data-exec c now user item u i s f hu h e ∙ (rw n refl)

-- Equal states hold equal data.
data_at :
    (other item : Str) {x y : World}
    → x ≡ y
    → get_data other item x.store ≡ get_data other item y.store
data_at other item = ap (λ (z : World). get_data other item z.store)

-- What `for_user` answers, by what `effectiveUserID` returns.
abbrev answered : (Str → World → Response × World) → World → Option Str → Response × World
answered act w none = (reply 403, w)
answered act w (some uid) = act uid w

answered-same :
    (w : World) (act : Str → World → Response × World)
    → ((uid : Str) → (act uid w).1 ≡ w)
    → (o : Option Str) → (answered act w o).1 ≡ w
answered-same w act h none = refl
answered-same w act h (some uid) = h uid

abbrev enabled_answer : World → Result AuthError Bool → Response × World
enabled_answer w (err x) = (reply 500, w)
enabled_answer w (ok b) = (record { status = 200; body = enabled_body b }, w)

enabled-same : (w : World) (r : Result AuthError Bool) → (enabled_answer w r).1 ≡ w
enabled-same w (err x) = refl
enabled-same w (ok b) = refl

module _ (host : Host) (now : Time) (ca : ClientAuth) (sess : Session) (u : User)
    (other item : Str) where
  abbrev entered : Context
  entered = record { client_auth = ca; user = some u; session = some sess }

  -- What a request of the user may assume.
  abbrev Fits : World → Type 0
  Fits w =
      (u.is_admin ≡ false)
      × IsFiled w.store
      × Lacks0 u.id
      × Lacks0 other
      × (str_eq u.id other ≡ false)

  act-other :
      (c : Change) (path it : Str) (w : World)
      → Fits w
      → is_empty it ≡ false
      → (act : Str → World → Response × World)
      → ((uid : Str) → (act uid w).1.store ≡ exec c now uid it w.store)
      → get_data other item (for_user path act entered w).1.store ≡ get_data other item w.store
  unfolding for_user
  act-other c path it w (a, f, hu, h, n) e act same =
      let after : Option Str → UserItemData = λ o. get_data other item (answered act w o).1.store in
      elim (effective_user_id_self u path a) [
        | inl k ↦ ap after k
        | inr k ↦
            ap after k
            ∙ ap (get_data other item) (same u.id)
            ∙ exec-other c now u.id it other item w.store f hu h e n
      ]

  -- A reply that goes with an unchanged state.
  user_by_id-same :
      (id : Str) (w : World) → (route_handler host now (Routes.user_by_id id) entered w).1 ≡ w
  unfolding route_handler require_auth cubozoa.Server.Users.handle_user_by_id get_user_by_id
  user_by_id-same id w = ground arith

  item_detail-same :
      (id : Str) (w : World) → (route_handler host now (Routes.item_detail id) entered w).1 ≡ w
  unfolding route_handler require_auth cubozoa.Server.Items.handle_item_detail get_item
  item_detail-same id w = ground arith

  resume-same :
      (limit : ℤ) (path : Str) (w : World)
      → (route_handler host now (Routes.resume_items limit path) entered w).1 ≡ w
  unfolding route_handler require_auth cubozoa.Server.Users.handle_resume_items for_user
  resume-same limit path w =
      answered-same w (resume_answer limit) (λ uid. refl) (effective_user_id u path)

  status-same : (w : World) → (route_handler host now Routes.totp_status entered w).1 ≡ w
  unfolding route_handler require_auth cubozoa.Server.TwoFactor.handle_2fa_status
  status-same w = enabled-same w (totp_enabled u.id w.store)

  route-other :
      (route : Route) (w : World)
      → Fits w
      → NamesItem route
      → get_data other item (route_handler host now route entered w).1.store
        ≡ get_data other item w.store
  unfolding route_handler require_auth require_admin exec cubozoa.Server.Users.handle_users_me
      cubozoa.Server.Users.handle_users_list cubozoa.Server.Users.handle_mark_played
      cubozoa.Server.Users.handle_mark_unplayed cubozoa.Server.Users.handle_set_favorite
      cubozoa.Server.Users.handle_playback_report cubozoa.Server.Items.handle_items
      cubozoa.Server.Items.handle_items_latest cubozoa.Server.Items.handle_artists
      cubozoa.Server.Items.handle_seasons cubozoa.Server.Items.handle_episodes
      cubozoa.Server.Items.handle_next_up cubozoa.Server.TwoFactor.handle_2fa_setup
      cubozoa.Server.TwoFactor.handle_2fa_activate cubozoa.Server.TwoFactor.handle_2fa_disable
      cubozoa.Server.Login.handle_logout changed
  route-other Routes.users_me w f e = refl
  route-other Routes.users_list w (a, f, hu, h, n) e = rw a refl
  route-other (Routes.user_by_id id) w f e = data_at other item (user_by_id-same id w)
  route-other (Routes.items q) w f e = refl
  route-other (Routes.items_latest parent types limit) w f e = refl
  route-other (Routes.item_detail id) w f e = data_at other item (item_detail-same id w)
  route-other (Routes.artists parent) w f e = refl
  route-other (Routes.seasons series) w f e = refl
  route-other (Routes.episodes series season) w f e = refl
  route-other (Routes.next_up limit) w f e = refl
  route-other (Routes.resume_items limit path) w f e = data_at other item (resume-same limit path w)
  route-other (Routes.played path it) w f e =
      act-other play path it w f e (λ uid x. changed (mark_played now uid it x.store) x)
        (λ uid. refl)
  route-other (Routes.unplayed path it) w f e =
      act-other unplay path it w f e (λ uid x. changed (mark_unplayed uid it x.store) x)
        (λ uid. refl)
  route-other (Routes.favorite fav path it) w f e =
      act-other (View.favorite fav) path it w f e
        (λ uid x. changed (set_favorite uid it fav x.store) x) (λ uid. refl)
  route-other (Routes.playback_report it ticks) w (a, f, hu, h, n) e =
      elim (Bool-cases (is_empty it)) [
        | inl k ↦ rw k refl
        | inr k ↦ rw k (exec-other (report ticks) now u.id it other item w.store f hu h k n)
      ]
  route-other Routes.totp_status w f e = data_at other item (status-same w)
  route-other (Routes.totp_setup secret) w f e =
      get_data-Keeps other item w.store _ (begin_totp_setup-Keeps host secret u.id w.store)
  route-other (Routes.totp_activate drawn none) w f e = refl
  route-other (Routes.totp_activate drawn (some code)) w f e =
      get_data-Keeps other item w.store _ (activate_totp-Keeps host now drawn u.id code w.store)
  route-other (Routes.totp_disable none) w f e = refl
  route-other (Routes.totp_disable (some code)) w f e =
      get_data-Keeps other item w.store _ (disable_totp-Keeps host now u.id code w.store)
  route-other Routes.logout w f e =
      get_data-Keeps other item w.store _ (logout-Keeps host ca.token w.store)

module _ (host : Host) (now : Time) where
  -- Nobody gets through without a user.
  blocked :
      (ca : ClientAuth) (route : Route) (w : World)
      → (route_handler host now route
          (record { client_auth = ca; user = none; session = none })
          w).1
        ≡ w
  unfolding route_handler require_auth require_admin
  blocked ca Routes.users_me w = refl
  blocked ca Routes.users_list w = refl
  blocked ca (Routes.user_by_id id) w = refl
  blocked ca (Routes.items q) w = refl
  blocked ca (Routes.items_latest parent types limit) w = refl
  blocked ca (Routes.item_detail id) w = refl
  blocked ca (Routes.artists parent) w = refl
  blocked ca (Routes.seasons series) w = refl
  blocked ca (Routes.episodes series season) w = refl
  blocked ca (Routes.next_up limit) w = refl
  blocked ca (Routes.resume_items limit path) w = refl
  blocked ca (Routes.played path it) w = refl
  blocked ca (Routes.unplayed path it) w = refl
  blocked ca (Routes.favorite fav path it) w = refl
  blocked ca (Routes.playback_report it ticks) w = refl
  blocked ca Routes.totp_status w = refl
  blocked ca (Routes.totp_setup secret) w = refl
  blocked ca (Routes.totp_activate drawn body) w = refl
  blocked ca (Routes.totp_disable body) w = refl
  blocked ca Routes.logout w = refl

  -- On every route of Server/Routes, among them all whose handlers write watched data, a request leaves
  -- another user's data of any item what it was, unless its token validates to an administrator, if
  -- stored data is filed under the pair that it names, identities hold no zero byte, and a path that is
  -- to name an item does.
  pub serve_others_data :
      (route : Route) (r : HttpRequest) (w : World) (other item : Str)
      → NamesItem route
      → IsFiled w.store
      → Lacks0 other
      → ((u : User) (sess : Session)
          → (validate_token host now (parse_client_auth host r.auth).token w.store).0 ≡ ok (u, sess)
          → (u.is_admin ≡ false) × Lacks0 u.id × (str_eq u.id other ≡ false))
      → get_data other item (serve host now r (route_handler host now route) w).1.store
        ≡ get_data other item w.store
  unfolding serve
  serve_others_data route r w other item e f h owner =
      let ca = parse_client_auth host r.auth in
      let s' = (validate_token host now ca.token w.store).1 in
      let keeps = validate_token-Keeps host now ca.token w.store in
      let same = get_data-Keeps other item w.store s' keeps in
      elim (Bool-cases (is_empty ca.token)) [
        | inl k ↦ rw (k, serve) (data_at other item (blocked ca route w))
        | inr k ↦ elim (Result-cases (validate_token host now ca.token w.store).0) [
          | inl (x, v) ↦
              rw (k, v, serve)
                (data_at other item (blocked ca route (record w { store = s' })) ∙ same)
          | inr ((u, sess), v) ↦
              rw (k, v, serve)
                (let (a, hu, n) = owner u sess v in
                  route-other host now ca sess u other item route (record w { store = s' })
                    (a, IsFiled-Keeps w.store s' keeps f, hu, h, n) e
                  ∙ same)
        ]
      ]
