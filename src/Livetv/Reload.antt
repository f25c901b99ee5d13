-- ===== src/Livetv/Reload.antt =====
-- internal/livetv/service.go: how the channels and the guide are loaded. What the network, the file
-- system, gzip and XML answer is in `Upstream`.
use cubozoa.Prelude.{
  ℕ, ◌*◌, Bool, true, false, not, ◌&&◌, ◌||◌, Option, none, some, List, [], ◌∷◌, ◌++◌, map, Str,
  codes, is_empty, has_prefix, keep, take, length, ltb, str_lt, sort_stable, ◌==◌, if◌then◌else◌,
}
use cubozoa.Prelude.Map
use cubozoa.Prelude.Map.{Map}
use cubozoa.Host.{Host}
use cubozoa.Store.Models.{Time}
use cubozoa.Media.Subtitles.{split}
use cubozoa.Livetv.M3u.{Channel, parse_m3u, m3u_guide_url}
use cubozoa.Livetv.Guide.{Program, GuideChannel, Service, numeric, group_programs, build_name_index}
use cubozoa.Livetv.Xmltv.{XmltvDoc, parse_guide}

pub record Upstream : Type 0 where
  -- an HTTP GET: the status, and the body if it could be read
  pub get : Str → Option (ℕ × Option Str)
  pub read_file : Str → Option Str
  -- the text that is packed, at most 256 MiB of it
  pub gunzip : Str → Option Str
  pub unmarshal : Str → Option XmltvDoc
  pub parse_time : Str → Str → Option Time

-- The sources of a service, which its fields `playlist` and `guide` hold.
pub record Config : Type 0 where
  pub playlist : Str
  pub guide : Str

-- `by_id` of the channels: the last one of an identity is kept.
unfoldable pub index_by_id : List Channel → Map Channel → Map Channel
index_by_id [] m = m
index_by_id (c ∷ cs) m = index_by_id cs (Map.put c.id c m)

abbrev pub no_service : Service
no_service = record {
  channels = [];
  by_id = [];
  programs_by_tvg = [];
  name_index = [];
  aliases = [];
  guide_start = 0;
  guide_end = 0;
  loaded_at = 0;
}

pub record GuideData : Type 0 where
  pub by_tvg : Map (List Program)
  pub name_index : Map Str
  pub start : Time
  pub end : Time

abbrev is_gzip : Str → Bool
is_gzip (a ∷ b ∷ s) = (a == 31) && (b == 139)
is_gzip s = false

-- The order of `Channels`: by number, and then by name.
unfoldable channel_less : Channel → Channel → Bool
channel_less a b =
    let na = numeric a.number in
    let nb = numeric b.number in if na == nb then str_lt a.name b.name else ltb na nb

unfoldable pub channels : Service → List Channel
unfolding channel_less
channels s = sort_stable channel_less s.channels

unfoldable count : Service → ℕ
count s = length s.channels

unfoldable guide_window : Service → Time × Time
guide_window s = (s.guide_start, s.guide_end)

module _ (up : Upstream) where
  unfoldable maybe_gunzip : Str → Str
  maybe_gunzip text =
      if not (is_gzip text)
      then text
      else elim (up.gunzip text) [ none ↦ text | some out ↦ if is_empty out then text else out ]

  -- At most 64 MiB of a body are read.
  unfoldable pub fetch : Str → Option Str
  unfolding maybe_gunzip
  fetch src =
      if has_prefix src (codes "http://") || has_prefix src (codes "https://")
      then elim (up.get src) [
        | none ↦ none
        | some (status, body) ↦ if not (status == 200) then none else elim body [
          | none ↦ none
          | some text ↦ some (maybe_gunzip (take (64 * 1024 * 1024) text))
        ]
      ]
      else elim (up.read_file src) [ none ↦ none | some text ↦ some (maybe_gunzip text) ]

unfoldable set_guide : Host → Str → Config → Config
set_guide host src cfg = record cfg { guide = host.trim_space src }

module _ (normalize : Str → Str) where
  unfoldable set_alias : Map Str → Map Str → Map Str
  set_alias [] idx = idx
  set_alias ((name, tvg) ∷ aliases) idx =
      let k = normalize name in
      set_alias aliases (if not (is_empty k) && not (is_empty tvg) then Map.put k tvg idx else idx)

  unfoldable set_aliases : Map Str → Service → Service
  unfolding set_alias
  set_aliases aliases s = record s { aliases = set_alias aliases [] }

module _ (host : Host) where
  -- `NewService`: no playlist, no service. How often it loads is a matter of `refreshes`.
  unfoldable new_service : Str → Option Service
  new_service playlist = if is_empty (host.trim_space playlist) then none else some no_service

  unfoldable split_sources : Str → List Str
  split_sources s = keep (λ p. not (is_empty p)) (map host.trim_space (split b',' s))

  -- The setting's sources, or else those that the playlist names.
  unfoldable guide_sources : Config → Str → List Str
  unfolding split_sources
  guide_sources cfg text = elim (split_sources cfg.guide) [
    | [] ↦
        let header_url = m3u_guide_url host text in
        if is_empty header_url then [] else split_sources header_url
    | src ∷ srcs ↦ src ∷ srcs
  ]

module _ (host : Host) (normalize : Str → Str) (up : Upstream) where
  -- The programmes and channels of the sources that could be read.
  unfoldable pub merge_sources : List Str → List Program × List GuideChannel
  unfolding fetch
  merge_sources [] = ([], [])
  merge_sources (src ∷ srcs) =
      let (progs, chans) = merge_sources srcs in
      elim (fetch up src) [
        | none ↦ (progs, chans)
        | some text ↦ elim (up.unmarshal text) [
          | none ↦ (progs, chans)
          | some doc ↦
              let (new_progs, new_chans) = parse_guide host up.parse_time doc in
              (new_progs ++ progs, new_chans ++ chans)
        ]
      ]

  unfoldable pub load_guide : List Str → GuideData
  unfolding merge_sources
  load_guide sources =
      let (all, chans) = merge_sources sources in
      elim all [
        | [] ↦ record { by_tvg = []; name_index = []; start = 0; end = 0 }
        | p ∷ ps ↦
            let (by_tvg, (start, end)) = group_programs (p ∷ ps) in
            record {
              by_tvg = by_tvg;
              name_index = build_name_index normalize chans;
              start = start;
              end = end;
            }
      ]

  -- Whether the playlist could be read, and the service after it.
  unfoldable pub reload : Config → Time → Service → Bool × Service
  unfolding fetch index_by_id load_guide guide_sources
  reload cfg now s = elim (fetch up cfg.playlist) [
    | none ↦ (false, s)
    | some text ↦
        let channels = parse_m3u host text in
        let guide = load_guide (guide_sources host cfg text) in
        (
          true,
          record s {
            channels = channels;
            by_id = index_by_id channels [];
            programs_by_tvg = guide.by_tvg;
            name_index = guide.name_index;
            guide_start = guide.start;
            guide_end = guide.end;
            loaded_at = now;
          },
        )
  ]

-- `Start` and the rounds of its loop: each load sees the world and the clock of its time.
unfoldable refreshes : Host → (Str → Str) → Config → List (Upstream × Time) → Service → Service
unfolding reload
refreshes host normalize cfg [] s = s
refreshes host normalize cfg ((up, now) ∷ later) s =
    refreshes host normalize cfg later (reload host normalize up cfg now s).1
