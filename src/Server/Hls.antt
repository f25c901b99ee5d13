-- ===== src/Server/Hls.antt =====
-- internal/server/handlers_hls.go: playlists and segments of a file that is transcoded on demand. The
-- headers that a reply adds are left out.
pub mod OnDemand
pub mod Live
pub mod Lines
pub mod Offered
pub mod Attempts
pub mod Agreement
use cubozoa.Prelude.{
  ℕ, pos_part, Bool, ◌&&◌, ◌||◌, ltb, Option, none, some, List, [], ◌∷◌, ◌++◌, map, find, Str,
  codes, is_empty, str_eq, has_prefix, itoa, ok, err, if◌then◌else◌,
}
use cubozoa.Prelude.Map.{Map}
use cubozoa.Store.Models.{Time}
use cubozoa.Store.State.{JsonStore}
use cubozoa.Store.Catalog.{get_item}
use cubozoa.Media.Subtitles.{split}
use cubozoa.Livetv.Guide
use cubozoa.Transcode.Abr.{Rendition, select_renditions}
use cubozoa.Transcode.Hls.Manager.{Manager, Start}
use cubozoa.Transcode.Hls.Wait.{Poll}
use cubozoa.Server.Login.{Response, Context, playlist_body, reply}
use cubozoa.Server.Users.{show}
use cubozoa.Server.Url.{query_escape, path_escape, parse_int}

-- What the handlers of streams share. `transcoder` is `none` without ffmpeg, and `live_tv` without
-- television. `live_reencode` holds the channels whose streams cannot be copied.
pub record Player : Type 0 where
  pub store : JsonStore
  pub transcoder : Option Manager
  pub live_tv : Option Guide.Service
  pub live_reencode : Map (Unit {0})

-- `filepath.Join`, `filepath.Rel`, sessionDir, StreamContentType, the seconds of a number of ticks with
-- three decimals, whether a file opens and is no directory, and `strings.TrimSpace`.
pub record System : Type 0 where
  pub join : Str → Str → Str
  pub rel : Str → Str → Option Str
  pub session_dir : Str → Str
  pub content_type : Str → Str
  pub seconds_text : ℕ → Str
  pub opens : Str → Bool
  pub trim_space : Str → Str

-- The values of a request's path, and of its query in both spellings.
pub record HlsRequest : Type 0 where
  pub id : Str
  pub quality : Str
  pub seg : Str
  pub start_ticks_upper : Str
  pub start_ticks_lower : Str

-- One start of a session, and the rounds in which its playlist is awaited.
pub record Launch : Type 0 where
  pub asked : Time
  pub start : Start
  pub read : Time
  pub polls : ℕ → Poll

unfoldable pub hls_start_ticks : HlsRequest → ℕ
hls_start_ticks r =
    pos_part (
      parse_int (if is_empty r.start_ticks_upper then r.start_ticks_lower else r.start_ticks_upper))

unfoldable pub hls_session_key : Str → ℕ → Str → Str
hls_session_key item_id start_ticks quality =
    item_id ++ (b':' ∷ itoa start_ticks ++ (b':' ∷ quality))

unfoldable pub find_rendition : List Rendition → Str → Option Rendition
find_rendition rs name = find (λ (r : Rendition). str_eq r.name name) rs

-- What is put behind each address of a playlist.
unfoldable pub query_of : Str → ℕ → Str
query_of token start_ticks =
    codes "?api_key="
    ++ (query_escape token
        ++ (if ltb 0 start_ticks then codes "&StartTimeTicks=" ++ itoa start_ticks else []))

-- `strings.Join(lines, "\n")`
unfoldable pub join_lines : List Str → Str
join_lines [] = []
join_lines (l ∷ []) = l
join_lines (l ∷ k ∷ ls) = l ++ (10 ∷ join_lines (k ∷ ls))

module _ (trim_space : Str → Str) where
  unfoldable pub rewrite_line : Str → Str → Str → Str
  rewrite_line prefix q line =
      let trimmed = trim_space line in
      if is_empty trimmed || has_prefix trimmed (codes "#")
      then line
      else prefix ++ (path_escape trimmed ++ q)

  unfoldable pub rewrite_segments : Str → Str → Str → ℕ → Str
  unfolding rewrite_line query_of join_lines
  rewrite_segments text prefix token start_ticks =
      join_lines (map (rewrite_line prefix (query_of token start_ticks)) (split 10 text))

-- The two lines of the master playlist for a rendition.
unfoldable pub variant_lines : Str → Rendition → Str
variant_lines q rd =
    codes "#EXT-X-STREAM-INF:BANDWIDTH="
    ++ (itoa rd.bandwidth
        ++ ((if ltb 0 rd.width && ltb 0 rd.height
              then codes ",RESOLUTION=" ++ (itoa rd.width ++ (b'x' ∷ itoa rd.height))
              else [])
            ++ (10 ∷ codes "hls/"
                ++ (path_escape rd.name ++ (codes "/main.m3u8" ++ (q ++ 10 ∷ []))))))

unfoldable pub all_variants : Str → List Rendition → Str
unfolding variant_lines
all_variants q [] = []
all_variants q (rd ∷ rds) = variant_lines q rd ++ all_variants q rds

unfoldable pub master_text : Str → ℕ → List Rendition → Str
unfolding all_variants query_of
master_text token start_ticks rds =
    codes "#EXTM3U"
    ++ (10 ∷ codes "#EXT-X-VERSION:3" ++ (10 ∷ all_variants (query_of token start_ticks) rds))

unfoldable pub handle_hls_master : HlsRequest → Context → Player → Response × Player
unfolding master_text hls_start_ticks
handle_hls_master r ctx p = elim p.transcoder [
  | none ↦ (reply 404, p)
  | some _ ↦ elim (get_item r.id p.store) [
    | err _ ↦ (reply 404, p)
    | ok it ↦
        let renditions = select_renditions it.width it.height it.bitrate in
        let text = master_text ctx.client_auth.token (hls_start_ticks r) renditions in
        (show (playlist_body text), p)
  ]
]
