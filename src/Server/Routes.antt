-- ===== src/Server/Routes.antt =====
-- Routes of internal/server/routes.go, of accounts, items, shows, watched data, playback reports, the
-- second factor and the logout: which handler answers a request, and whom it lets in. A route carries the
-- values of its path, and its query or body as the handler decodes them.
use cubozoa.Prelude.{ℤ, Bool, Option, List, Str}
use cubozoa.Host.{Host}
use cubozoa.Store.Models.{Time}
use cubozoa.Media.Browse.{BrowseQuery}
use cubozoa.Server.Login.{Handler, handle_logout, require_auth, require_admin}
use cubozoa.Server.Users.{
  handle_users_me, handle_user_by_id, handle_users_list, handle_mark_played, handle_mark_unplayed,
  handle_set_favorite, handle_resume_items, handle_playback_report,
}
use cubozoa.Server.Items.{
  handle_items, handle_items_latest, handle_item_detail, handle_artists, handle_seasons,
  handle_episodes, handle_next_up,
}
use cubozoa.Server.TwoFactor.{
  handle_2fa_status, handle_2fa_setup, handle_2fa_activate, handle_2fa_disable,
}

pub data Route : Type 0 where
  users_me users_list : Route
  user_by_id : Str → Route
  items : BrowseQuery → Route
  items_latest : Str → List Str → ℤ → Route
  item_detail artists seasons : Str → Route
  episodes : Str → Str → Route
  next_up : ℤ → Route
  resume_items : ℤ → Str → Route
  played unplayed : Str → Str → Route
  favorite : Bool → Str → Str → Route
  playback_report : Str → ℤ → Route
  totp_status : Route
  totp_setup : Option Str → Route
  totp_activate : Option (List Str) → Option Str → Route
  totp_disable : Option Str → Route
  logout : Route

unfoldable pub route_handler : Host → Time → Route → Handler
unfolding require_auth require_admin
route_handler host now users_me = require_auth handle_users_me
route_handler host now users_list = require_admin handle_users_list
route_handler host now (user_by_id id) = require_auth (handle_user_by_id id)
route_handler host now (items q) = require_auth (handle_items host.to_lower host.trim_space q)
route_handler host now (items_latest parent types limit) =
    require_auth (handle_items_latest host.to_lower host.trim_space parent types limit)
route_handler host now (item_detail id) = require_auth (handle_item_detail id)
route_handler host now (artists parent) = require_auth (handle_artists parent)
route_handler host now (seasons series) = require_auth (handle_seasons series)
route_handler host now (episodes series season) = require_auth (handle_episodes series season)
route_handler host now (next_up limit) = require_auth (handle_next_up limit)
route_handler host now (resume_items limit user) = require_auth (handle_resume_items limit user)
route_handler host now (played user item) = require_auth (handle_mark_played now user item)
route_handler host now (unplayed user item) = require_auth (handle_mark_unplayed user item)
route_handler host now (favorite fav user item) = require_auth (handle_set_favorite fav user item)
route_handler host now (playback_report item ticks) =
    require_auth (handle_playback_report now item ticks)
route_handler host now totp_status = require_auth handle_2fa_status
route_handler host now (totp_setup secret) = require_auth (handle_2fa_setup secret)
route_handler host now (totp_activate drawn body) =
    require_auth (handle_2fa_activate host now drawn body)
route_handler host now (totp_disable body) = require_auth (handle_2fa_disable host now body)
route_handler host now logout = require_auth (handle_logout host)
