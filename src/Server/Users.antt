-- ===== src/Server/Users.antt =====
-- internal/server/handlers_users.go, handlers_userdata.go and handlers_playback.go: accounts, and what a
-- user has watched. The dates and permissions that a reply adds to an account are left out.
use cubozoa.Prelude.{
  ℕ, zero, ◌-◌, ℤ, pos_part, Bool, true, false, not, ◌&&◌, ◌||◌, ltb, Option, none, some, List, [],
  ◌∷◌, map, length, Str, is_empty, str_eq, Result, ok, err, if◌then◌else◌,
}
use cubozoa.Prelude.Map
use cubozoa.Prelude.Map.{Map}
use cubozoa.Store.Models.{Time, User, MediaItem, UserItemData}
use cubozoa.Store.State.{JsonStore, not_found}
use cubozoa.Store.Accounts
use cubozoa.Store.Catalog
use cubozoa.UserData.{
  UserDataError, map_data, report_position, mark_played, mark_unplayed, set_favorite, resumable,
}
use cubozoa.Server.Login.{
  Response, World, Handler, Body, user_body, users_body, public_body, user_data_body, items_body,
  reply,
}

abbrev pub show : Body → Response
show b = record { status = 200; body = b }

-- A handler that uses `userFrom(r)`: without a user it panics, which recoverPanics answers with 500.
abbrev pub with_user : (User → World → Response × World) → Handler
with_user next ctx w = elim ctx.user [ none ↦ (reply 500, w) | some u ↦ next u w ]

unfoldable pub handle_users_me : Handler
handle_users_me = with_user (λ caller w. (show (user_body caller), w))

-- `id` is the path's value, here and below.
unfoldable pub handle_user_by_id : Str → Handler
handle_user_by_id id = with_user (λ caller w.
    if not caller.is_admin && not (str_eq caller.id id)
    then (reply 403, w)
    else elim (Accounts.get_user_by_id id w.store) [
      | err not_found ↦ (reply 404, w)
      | err _ ↦ (reply 500, w)
      | ok u ↦ (show (user_body u), w)
    ])

-- The list that a login screen shows.
unfoldable pub handle_users_public : Handler
handle_users_public ctx w =
    (show (public_body (map (λ (u : User). (u.id, u.name)) (Accounts.list_users w.store))), w)

unfoldable pub handle_users_list : Handler
handle_users_list ctx w = (show (users_body (Accounts.list_users w.store)), w)

-- `none` is the refusal.
unfoldable pub effective_user_id : User → Str → Option Str
effective_user_id caller path_user_id =
    if is_empty path_user_id || str_eq path_user_id caller.id
    then some caller.id
    else if caller.is_admin
    then some path_user_id
    else none

-- The user that a request may act on.
unfoldable pub for_user : Str → (Str → World → Response × World) → Handler
unfolding effective_user_id
for_user path_user_id next = with_user (λ caller w. elim (effective_user_id caller path_user_id) [
  | none ↦ (reply 403, w)
  | some uid ↦ next uid w
])

-- What a change of a user's data answers.
unfoldable pub changed : Result UserDataError UserItemData × JsonStore → World → Response × World
changed (done, s) w =
    (elim done [ err _ ↦ reply 500 | ok ud ↦ show (user_data_body ud) ], record w { store = s })

unfoldable pub handle_mark_played : Time → Str → Str → Handler
unfolding for_user changed
handle_mark_played now path_user item_id =
    for_user path_user (λ uid w. changed (mark_played now uid item_id w.store) w)

unfoldable pub handle_mark_unplayed : Str → Str → Handler
unfolding for_user changed
handle_mark_unplayed path_user item_id =
    for_user path_user (λ uid w. changed (mark_unplayed uid item_id w.store) w)

unfoldable pub handle_set_favorite : Bool → Str → Str → Handler
unfolding for_user changed
handle_set_favorite fav path_user item_id =
    for_user path_user (λ uid w. changed (set_favorite uid item_id fav w.store) w)

-- How many more items are wanted; `none` is no limit.
abbrev is_full : Option ℕ → Bool
is_full (some zero) = true
is_full room = false

abbrev one_less : Option ℕ → Option ℕ
one_less none = none
one_less (some n) = some (n - 1)

-- The loop over the identities; an item that is gone is passed over.
unfoldable pub resume_loop :
    JsonStore → Map UserItemData → List Str → Option ℕ → List (MediaItem × Option UserItemData)
resume_loop s ud [] room = []
resume_loop s ud (id ∷ ids) room =
    let rest = resume_loop s ud ids in
    if is_full room then [] else elim (Catalog.get_item id s) [
      | err _ ↦ rest room
      | ok it ↦ (it, Map.get id ud) ∷ rest (one_less room)
    ]

abbrev pub resume_answer : ℤ → Str → World → Response × World
resume_answer limit uid w =
    let n = pos_part limit in
    let room : Option ℕ = if ltb 0 n then some n else none in
    let items = resume_loop w.store (map_data uid w.store) (resumable uid w.store) room in
    (show (items_body items (length items)), w)

unfoldable pub handle_resume_items : ℤ → Str → Handler
unfolding for_user resume_loop
handle_resume_items limit path_user = for_user path_user (resume_answer limit)

-- `item_id` and `ticks` are what decoding the body leaves, whether it succeeds or not. Whether the
-- position could be kept does not change the answer.
unfoldable pub handle_playback_report : Time → Str → ℤ → Handler
handle_playback_report now item_id ticks ctx w = elim ctx.user [
  | none ↦ (reply 204, w)
  | some u ↦
      if is_empty item_id
      then (reply 204, w)
      else (reply 204, record w { store = (report_position now u.id item_id ticks w.store).1 })
]
