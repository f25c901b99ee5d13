-- ===== src/Tests/Playing.antt =====
-- The handlers of streams at a small library and one channel.
use cubozoa.Prelude.{
  ℕ, if◌then◌else◌, ◌≡◌, refl, Bool, true, false, none, some, List, [], ◌∷◌, ◌++◌, map, Str, codes,
  Result, ok, All,
}
use cubozoa.Prelude.Map
use cubozoa.Store.Preserve.{empty-IsValid, run-IsValid}
use cubozoa.Store.Exec
use cubozoa.Media.Subtitles.{split}
use cubozoa.Livetv.M3u.{Channel}
use cubozoa.Livetv.Guide
use cubozoa.Transcode.Hls.Manager.{Session, Manager, ensure, new_manager, clean_dir}
use cubozoa.Transcode.Hls.Wait.{Poll, Look}
use cubozoa.Transcode.Hls.Calls.{Call, run, ensuring, reading, reaping, stopping}
use cubozoa.Jellyfin.AuthHeader.{no_auth}
use cubozoa.Server.Login.{Context}
use cubozoa.Server.Hls.{
  Player, System, HlsRequest, Launch, query_of, rewrite_line, rewrite_segments,
}
use cubozoa.Server.Hls.OnDemand.{handle_hls_variant, segment_answer}
use cubozoa.Server.Hls.Live.{live_reencode, handle_live_stream, handle_live_segment}
use cubozoa.Server.Hls.Lines.{rewrite_segments_lem}
use cubozoa.Server.Hls.Offered.{IsDue, handle_hls_variant-IsDue}
use cubozoa.Server.Hls.Agreement.{segment_after_playlist}
use cubozoa.Tests.Fixtures.{host}
use cubozoa.Tests.Serving.{rel, history, start}
use cubozoa.Tests.Streaming.{slash, started, manager}

-- A client that asks for the second session while its process does not run, and another client.
abbrev polls : List Call
polls =
    ensuring 5 (codes "b") (λ d. d ∷ []) started
    ∷ reaping 9
    ∷ ensuring 10 (codes "c") (λ d. d ∷ []) started
    ∷ stopping (codes "a")
    ∷ reading 14 (codes "b")
    ∷ reaping 24
    ∷ []

rewrite_segments_lem_example :
    split 10 (
      rewrite_segments
        (λ s. s)
        (codes "#EXTM3U" ++ 10 ∷ codes "seg00000.ts")
        (codes "hls/")
        (10 ∷ codes "t")
        5)
    ≡ map
        (rewrite_line (λ s. s) (codes "hls/") (query_of (10 ∷ codes "t") 5))
        (split 10 (codes "#EXTM3U" ++ 10 ∷ codes "seg00000.ts"))
rewrite_segments_lem_example =
    rewrite_segments_lem (λ s. s) (codes "#EXTM3U" ++ 10 ∷ codes "seg00000.ts") (codes "hls/")
      (10 ∷ codes "t") 5 refl

abbrev system : System
system = record {
  join = slash;
  rel = rel;
  session_dir = λ k. k;
  content_type = λ c. c;
  seconds_text = λ n. codes "0.000";
  opens = λ p. true;
  trim_space = λ s. s;
}

abbrev bbc : Channel
bbc = record {
  id = codes "c1";
  tvg_id = [];
  name = codes "One";
  number = codes "1";
  logo = [];
  group = [];
  url = codes "http://tuner/1";
}

abbrev channels : Guide.Service
channels = record {
  channels = bbc ∷ [];
  by_id = (codes "c1", bbc) ∷ [];
  programs_by_tvg = [];
  name_index = [];
  aliases = [];
  guide_start = 0;
  guide_end = 0;
  loaded_at = 0;
}

abbrev player : Player
player = record {
  store = Exec.run host.fold history start;
  transcoder = some manager;
  live_tv = some channels;
  live_reencode = [];
}

abbrev anonymous : Context
anonymous = record { client_auth = no_auth; user = none; session = none }

abbrev request : HlsRequest
request = record {
  id = codes "i1";
  quality = codes "720";
  seg = [];
  start_ticks_upper = codes "50";
  start_ticks_lower = [];
}

-- ffmpeg has written the playlist.
abbrev written : Launch
written = record {
  asked = 1;
  start = started;
  read = 2;
  polls = λ n. record {
    at = 3;
    content = some (codes "seg00000.ts");
    exited = false;
    after_exit = none;
  };
}

-- ffmpeg exits and writes nothing.
abbrev hopeless : Launch
hopeless = record {
  asked = 1;
  start = started;
  read = 2;
  polls = λ n. record { at = 3; content = none; exited = true; after_exit = none };
}

handle_hls_variant-IsDue_example :
    (m' : Manager) × ((handle_hls_variant system 3 written request anonymous player).1.transcoder
      ≡ some m')
    × All
        (IsDue system host.fold (codes "i1") (codes "720") (Exec.run host.fold history start) [])
        m'.processes
unfolding new_manager clean_dir
handle_hls_variant-IsDue_example =
    handle_hls_variant-IsDue system host.fold 3 written request anonymous player manager
      (run-IsValid host.fold history start (tt, (tt, tt)) (empty-IsValid host.fold)) refl

segment_after_playlist_example :
    (m : Manager) × (sess : Session) × ((handle_live_stream system 3 hopeless written
        (codes "c1")
        anonymous
        player).1.transcoder
      ≡ some m)
    × (Map.get
          ((if live_reencode
                (codes "c1")
                (handle_live_stream system 3 hopeless written (codes "c1") anonymous player).1
              then codes "livetc:"
              else codes "live:")
            ++ codes "c1")
          m.sessions
        ≡ some sess)
    × ((handle_live_segment system 4 4
          (λ n. record { at = 4; is_file = true })
          (codes "c1")
          (codes "seg00000.ts")
          anonymous
          (handle_live_stream system 3 hopeless written (codes "c1") anonymous player).1).0
        ≡ segment_answer system.opens (some (ok (slash sess.dir (codes "seg00000.ts")))))
unfolding handle_live_stream Guide.stream_url Map.get cubozoa.Prelude.str_eq ensure new_manager
    cubozoa.Transcode.Hls.Wait.playlist Map.put Map.remove rewrite_segments split
    cubozoa.Prelude.has_prefix cubozoa.Server.Url.path_escape cubozoa.Server.Url.is_path_byte
    cubozoa.Server.Url.query_escape cubozoa.Transcode.Hls.Wait.is_segment_name
segment_after_playlist_example =
    segment_after_playlist system 3 hopeless written (codes "c1") anonymous player
      (codes "live/seg00000.ts?api_key=") (codes "seg00000.ts") 4
      (λ n. record { at = 4; is_file = true }) refl refl refl
