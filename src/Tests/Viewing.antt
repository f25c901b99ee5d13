-- ===== src/Tests/Viewing.antt =====
-- The guide's theorems at a small guide.
use mathlib.Core.List.{Perm}
use cubozoa.Prelude.Map.{get}
use cubozoa.Prelude.{ℕ, ◌≡◌, refl, ◌⊎◌, str_eq, true, false, none, some, [], ◌∷◌, Str, codes}
use cubozoa.Livetv.M3u.{Channel, parse_m3u}
use cubozoa.Livetv.Guide.{Program, Service, channel, stream_url}
use cubozoa.Livetv.Reload.{Upstream, Config, no_service, channels, fetch, reload}
use cubozoa.Livetv.Lineup.{last_of, reload_lem, shadowed_channel}
use cubozoa.Tests.Fixtures.{host}

abbrev one : Channel
one = record {
  id = codes "c1";
  tvg_id = codes "one";
  name = codes "One";
  number = codes "1";
  logo = [];
  group = [];
  url = codes "http://tuner/1";
}

abbrev program : Str → ℕ → ℕ → Program
program title start stop = record {
  id = title;
  channel_tvg_id = codes "one";
  title = title;
  description = [];
  category = [];
  start = start;
  stop = stop;
}

abbrev guide : Service
guide = record {
  channels = one ∷ [];
  by_id = (codes "c1", one) ∷ [];
  programs_by_tvg =
      (codes "one", program (codes "News") 10 20 ∷ program (codes "Film") 20 40 ∷ []) ∷ [];
  name_index = [];
  aliases = [];
  guide_start = 0;
  guide_end = 0;
  loaded_at = 0;
}

-- Two entries of one guide identity.
abbrev lineup : Str
lineup = codes "#EXTINF:-1 tvg-id=\"one\",One\nhttp://a\n#EXTINF:-1 tvg-id=\"one\",Two\nhttp://b"

abbrev first_entry : Channel
first_entry = record {
  id = codes "#livetv:one";
  tvg_id = codes "one";
  name = codes "One";
  number = codes "1";
  logo = [];
  group = [];
  url = codes "http://a";
}

abbrev second_entry : Channel
second_entry = record first_entry { name = codes "Two"; number = codes "2"; url = codes "http://b" }

abbrev upstream : Upstream
upstream = record {
  get = λ u. some (200, some lineup);
  read_file = λ p. none;
  gunzip = λ z. none;
  unmarshal = λ x. none;
  parse_time = λ f s. none;
}

abbrev config : Config
config = record { playlist = codes "http://m3u"; guide = [] }

abbrev loaded : Service
loaded = (reload host (λ s. s) upstream config 5 no_service).1

reload_lem_example :
    ((fetch upstream (codes "http://m3u") ≡ none)
      × (reload host (λ s. s) upstream config 5 no_service ≡ (false, no_service)))
    ⊎ ((text : Str) × (fetch upstream (codes "http://m3u") ≡ some text)
        × ((reload host (λ s. s) upstream config 5 no_service).0 ≡ true)
        × Perm (channels loaded) (parse_m3u host text)
        × (channel (codes "#livetv:one") loaded
            ≡ last_of (codes "#livetv:one") none (parse_m3u host text)))
reload_lem_example = reload_lem host (λ s. s) upstream config 5 no_service (codes "#livetv:one")

shadowed_channel_example :
    (codes "#livetv:one" ≡ codes "#livetv:one")
    × Perm (channels loaded) (first_entry ∷ second_entry ∷ [])
    × (stream_url (codes "#livetv:one") loaded ≡ some (codes "http://b"))
unfolding fetch cubozoa.Prelude.has_prefix parse_m3u cubozoa.Prelude.str_eq cubozoa.Prelude.itoa
shadowed_channel_example =
    shadowed_channel host (λ s. s) upstream config 5 no_service lineup [] first_entry []
      second_entry [] refl refl refl refl tt
