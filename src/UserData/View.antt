-- ===== src/UserData/View.antt =====
-- The playback state of internal/userdata/service.go as a table of users and items.
use cubozoa.Prelude.{
  ◌+◌, ◌≡◌, refl, sym, subst, inl, inr, Bool, true, false, ◌&&◌, Str, str_eq, str_eq_iff, is_empty,
  ok, if◌then◌else◌, arith, ℤ, pos, negsuc, Result-cases,
}
use cubozoa.Store.Models.{Time, UserItemData}
use cubozoa.Store.State.{JsonStore}
use cubozoa.Store.Playback.{get_user_item_data, upsert_user_item_data}
use cubozoa.Store.Reads.{Lacks0, get_user_item_data-upsert}
use cubozoa.UserData.{get_data, report_position, mark_played, mark_unplayed, set_favorite}

-- Stored data names the user and the item that it is stored for. An identity holds no zero byte.
abbrev pub IsFiled : JsonStore → Type 0
IsFiled s =
    (user item : Str) (d : UserItemData)
    → Lacks0 user
    → get_user_item_data user item s ≡ ok d
    → (d.user_id ≡ user) × (d.item_id ≡ item)

-- The calls that change a pair's data.
pub data Change : Type 0 where
  report : ℤ → Change
  play unplay : Change
  favorite : Bool → Change

unfoldable pub exec : Change → Time → Str → Str → JsonStore → JsonStore
exec (report ticks) now user item s = (report_position now user item ticks s).1
exec play now user item s = (mark_played now user item s).1
exec unplay now user item s = (mark_unplayed user item s).1
exec (favorite fav) now user item s = (set_favorite user item fav s).1

-- What a change means for the pair's data: a negative position starts over; watching clears the
-- position and counts; neither touches the favourite flag.
abbrev pub meaning : Change → Time → UserItemData → UserItemData
meaning (report (pos n)) now d = record d { playback_position_ticks = n; last_played_at = now }
meaning (report (negsuc n)) now d = record d { playback_position_ticks = 0; last_played_at = now }
meaning play now d = record d {
  playback_position_ticks = 0;
  played = true;
  play_count = d.play_count + 1;
  last_played_at = now;
}
meaning unplay now d = record d { playback_position_ticks = 0; played = false }
meaning (favorite fav) now d = record d { is_favorite = fav }

-- Under the invariant, `Get` names the pair that it is asked for.
get_data-IsFiled :
    (user item : Str) (s : JsonStore)
    → IsFiled s
    → Lacks0 user
    → ((get_data user item s).user_id ≡ user) × ((get_data user item s).item_id ≡ item)
unfolding get_data
get_data-IsFiled user item s h hu = elim (Result-cases (get_user_item_data user item s)) [
  | inl (e, g) ↦ rw (g, get_data) (refl, refl)
  | inr (d, g) ↦ rw (g, get_data) (h user item d hu g)
]

get_data-upsert :
    (d : UserItemData) (user item u i : Str) (s : JsonStore)
    → d.user_id ≡ user
    → d.item_id ≡ item
    → Lacks0 user
    → Lacks0 u
    → get_data u i (upsert_user_item_data d s).1
      ≡ (if str_eq user u && str_eq item i then d else get_data u i s)
unfolding get_data
get_data-upsert d user item u i s eu ei hu h = ground (
  arith,
  get_user_item_data-upsert d u i s (rw eu hu) h,
  str_eq_iff user u,
  str_eq_iff item i,
  str_eq_iff d.user_id u,
  str_eq_iff d.item_id i,
)

-- One change, its write failing or not, is read back by the next `Get` as what it means, and no other
-- pair's data moves.
pub get_data-exec :
    (c : Change) (now : Time) (user item u i : Str) (s : JsonStore)
    → IsFiled s
    → Lacks0 user
    → Lacks0 u
    → is_empty item ≡ false
    → get_data u i (exec c now user item s) ≡ (
        if str_eq user u && str_eq item i
        then meaning c now (get_data user item s)
        else get_data u i s)
unfolding exec report_position mark_played mark_unplayed set_favorite
get_data-exec (report (pos n)) now user item u i s f hu h e =
    let (p, q) = get_data-IsFiled user item s f hu in
    rw (e, exec, report_position) (get_data-upsert _ user item u i s p q hu h)
get_data-exec (report (negsuc n)) now user item u i s f hu h e =
    let (p, q) = get_data-IsFiled user item s f hu in
    rw (e, exec, report_position) (get_data-upsert _ user item u i s p q hu h)
get_data-exec play now user item u i s f hu h e =
    let (p, q) = get_data-IsFiled user item s f hu in get_data-upsert _ user item u i s p q hu h
get_data-exec unplay now user item u i s f hu h e =
    let (p, q) = get_data-IsFiled user item s f hu in get_data-upsert _ user item u i s p q hu h
get_data-exec (favorite fav) now user item u i s f hu h e =
    let (p, q) = get_data-IsFiled user item s f hu in get_data-upsert _ user item u i s p q hu h

upsert-IsFiled :
    (d : UserItemData) (s : JsonStore)
    → Lacks0 d.user_id
    → IsFiled s
    → IsFiled (upsert_user_item_data d s).1
upsert-IsFiled d s hd f u i x hu g = ground (
  arith,
  get_user_item_data-upsert d u i s hd hu,
  g,
  f u i x hu,
  str_eq_iff d.user_id u,
  str_eq_iff d.item_id i,
)

pub exec-IsFiled :
    (c : Change) (now : Time) (user item : Str) (s : JsonStore)
    → IsFiled s
    → Lacks0 user
    → is_empty item ≡ false
    → IsFiled (exec c now user item s)
unfolding exec report_position mark_played mark_unplayed set_favorite
exec-IsFiled (report ticks) now user item s f hu e =
    let (p, q) = get_data-IsFiled user item s f hu in
    rw (e, exec, report_position) (upsert-IsFiled _ s (subst Lacks0 (sym p) hu) f)
exec-IsFiled play now user item s f hu e =
    let (p, q) = get_data-IsFiled user item s f hu in upsert-IsFiled _ s (subst Lacks0 (sym p) hu) f
exec-IsFiled unplay now user item s f hu e =
    let (p, q) = get_data-IsFiled user item s f hu in upsert-IsFiled _ s (subst Lacks0 (sym p) hu) f
exec-IsFiled (favorite fav) now user item s f hu e =
    let (p, q) = get_data-IsFiled user item s f hu in upsert-IsFiled _ s (subst Lacks0 (sym p) hu) f
