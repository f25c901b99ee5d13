-- ===== src/Livetv/Lineup.antt =====
-- Which channel an identity names after a load by internal/livetv/service.go.
use mathlib.Core.List.{Perm}
use cubozoa.Prelude.{
  ◌≡◌, refl, sym, ap, ◌∙◌, subst, ◌⊎◌, Bool, true, false, Option, none, some, List, [], ◌∷◌, ◌++◌,
  Str, codes, is_empty, str_eq, str_eq_refl, All, arith, Option-cases, inl, inr, sort_stable-Perm,
  append_assoc, if◌then◌else◌,
}
use cubozoa.Prelude.Map
use cubozoa.Prelude.Map.{Map, get-put}
use cubozoa.Host.{Host}
use cubozoa.Store.Models.{Time}
use cubozoa.Livetv.M3u.{Channel, channel_id, parse_m3u}
use cubozoa.Livetv.Playlist.{IsReady, parse_m3u-IsReady}
use cubozoa.Livetv.Guide.{Service, channel, stream_url}
use cubozoa.Livetv.Reload.{Upstream, Config, index_by_id, channels, fetch, reload}

-- The last channel of an identity, or else the one given.
abbrev pub last_of : Str → Option Channel → List Channel → Option Channel
last_of id found [] = found
last_of id found (c ∷ cs) = last_of id (if str_eq c.id id then some c else found) cs

get-index_by_id :
    (id : Str) (cs : List Channel) (m : Map Channel)
    → Map.get id (index_by_id cs m) ≡ last_of id (Map.get id m) cs
unfolding index_by_id
get-index_by_id id [] m = refl
get-index_by_id id (c ∷ cs) m =
    get-index_by_id id cs (Map.put c.id c m)
    ∙ ap (λ (o : Option Channel). last_of id o cs) (get-put c.id id c m)

last_of_append :
    (id : Str) (o : Option Channel) (xs ys : List Channel)
    → last_of id o (xs ++ ys) ≡ last_of id (last_of id o xs) ys
last_of_append id o [] ys = refl
last_of_append id o (c ∷ xs) ys = last_of_append id (if str_eq c.id id then some c else o) xs ys

-- No channel of the list has the identity.
abbrev pub HasNone : Str → List Channel → Type 0
HasNone id = All (λ c. str_eq c.id id ≡ false)

last_of_others :
    (id : Str) (o : Option Channel) (cs : List Channel) → HasNone id cs → last_of id o cs ≡ o
last_of_others id o [] h = refl
last_of_others id o (c ∷ cs) (d, h) = rw d (last_of_others id o cs h)

last_of_found :
    (b : Channel) (o : Option Channel) (xs zs : List Channel)
    → HasNone b.id zs
    → last_of b.id o (xs ++ b ∷ zs) ≡ some b
last_of_found b o xs zs h =
    last_of_append b.id o xs (b ∷ zs)
    ∙ ap (λ (t : Bool). last_of b.id (if t then some b else last_of b.id o xs) zs)
        (str_eq_refl b.id)
    ∙ last_of_others b.id (some b) zs h

All-middle :
    {A : Type 0} (P : A → Type 0) (xs : List A) (a : A) (ys : List A) → All P (xs ++ a ∷ ys) → P a
All-middle P [] a ys (h, k) = h
All-middle P (x ∷ xs) a ys (h, k) = All-middle P xs a ys k

seed_of_same :
    (a b : Channel)
    → is_empty a.tvg_id ≡ false
    → a.tvg_id ≡ b.tvg_id
    → (if is_empty a.tvg_id then a.url else a.tvg_id)
      ≡ (if is_empty b.tvg_id then b.url else b.tvg_id)
seed_of_same a b n e = rw (n, subst (λ (t : Str). is_empty t ≡ false) e n) e

same_id :
    (host : Host) (a b : Channel)
    → IsReady host a
    → IsReady host b
    → is_empty a.tvg_id ≡ false
    → a.tvg_id ≡ b.tvg_id
    → a.id ≡ b.id
unfolding channel_id
same_id host a b ra rb n e =
    ra.identified
    ∙ ap (λ (x : Str). host.hash_prefix (codes "livetv:" ++ x)) (seed_of_same a b n e)
    ∙ sym rb.identified

module _ (host : Host) (normalize : Str → Str) (up : Upstream) (cfg : Config) (now : Time) where
  -- A load that cannot read the playlist changes nothing. Any other one lists exactly the channels of the
  -- playlist, in an order of their own, and an identity names the last of them that has it.
  pub reload_lem :
      (s : Service) (id : Str)
      → ((fetch up cfg.playlist ≡ none) × (reload host normalize up cfg now s ≡ (false, s)))
        ⊎ ((text : Str) × (fetch up cfg.playlist ≡ some text)
            × ((reload host normalize up cfg now s).0 ≡ true)
            × Perm (channels (reload host normalize up cfg now s).1) (parse_m3u host text)
            × (channel id (reload host normalize up cfg now s).1
                ≡ last_of id none (parse_m3u host text)))
  unfolding reload channel channels Map.get
  reload_lem s id = elim (Option-cases (fetch up cfg.playlist)) [
    | inl e ↦ inl (e, rw (e, reload))
    | inr (text, e) ↦ inr (
      text,
      e,
      rw (e, reload),
      rw (e, reload, channels) (sort_stable-Perm _ (parse_m3u host text)),
      rw (e, reload, channel) (get-index_by_id id (parse_m3u host text) []),
    )
  ]

  -- If two entries of a playlist name the same guide identity, which is not empty, and no entry behind
  -- the second has its identity, then after a load both are listed under one identity, under which only
  -- the stream of the second is served.
  pub shadowed_channel :
      (s : Service) (text : Str) (xs : List Channel) (a : Channel) (ys : List Channel) (b : Channel)
      (zs : List Channel)
      → fetch up cfg.playlist ≡ some text
      → parse_m3u host text ≡ xs ++ a ∷ (ys ++ b ∷ zs)
      → is_empty a.tvg_id ≡ false
      → a.tvg_id ≡ b.tvg_id
      → HasNone b.id zs
      → (a.id ≡ b.id)
        × Perm (channels (reload host normalize up cfg now s).1) (xs ++ a ∷ (ys ++ b ∷ zs))
        × (stream_url a.id (reload host normalize up cfg now s).1 ≡ some b.url)
  unfolding stream_url
  shadowed_channel s text xs a ys b zs f e n same last = elim (reload_lem s a.id) [
    | inl (g, kept) ↦ absurd (ground (arith, f, g))
    | inr (read, g, done, listed, found) ↦
        let texts : read ≡ text = ground (arith, f, g) in
        let parsed = ap (parse_m3u host) texts ∙ e in
        let ready = subst (All (IsReady host)) e (parse_m3u-IsReady host text) in
        let whole = append_assoc xs (a ∷ ys) (b ∷ zs) in
        let ids =
          same_id host a b (All-middle (IsReady host) xs a (ys ++ b ∷ zs) ready)
            (All-middle (IsReady host) (xs ++ a ∷ ys) b zs
              (subst (All (IsReady host)) (sym whole) ready))
            n same in
        let last_one =
          found
          ∙ ap (last_of a.id none) (parsed ∙ sym whole)
          ∙ ap (λ (i : Str). last_of i none ((xs ++ a ∷ ys) ++ b ∷ zs)) ids
          ∙ last_of_found b none (xs ++ a ∷ ys) zs last in
        (
          ids,
          subst (λ (l : List Channel). Perm (channels (reload host normalize up cfg now s).1) l)
              parsed listed,
          rw (stream_url, last_one),
        )
  ]
