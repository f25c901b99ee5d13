-- ===== src/Server/Hls/OnDemand.antt =====
-- internal/server/handlers_hls.go: the handlers that start sessions and serve their files. An answer is
-- `none` if the rounds of the playlist or of the segment ran out.
use cubozoa.Prelude.{
  ℕ, ltb, Bool, Option, none, some, [], Str, codes, Result, ok, err, if◌then◌else◌,
}
use cubozoa.Store.Models.{Time}
use cubozoa.Store.State.{JsonStore}
use cubozoa.Store.Catalog.{get_item}
use cubozoa.Media.Files.{item_stream}
use cubozoa.Transcode.Abr.{Rendition, auto_rendition, select_renditions}
use cubozoa.Transcode.Hls.Manager.{Manager, HlsError, ensure}
use cubozoa.Transcode.Hls.Args.{ffmpeg_args}
use cubozoa.Transcode.Hls.Wait.{Look, playlist, segment}
use cubozoa.Server.Login.{Response, Context, playlist_body, file_body, reply}
use cubozoa.Server.Users.{show}
use cubozoa.Server.Hls.{
  Player, System, HlsRequest, Launch, hls_start_ticks, hls_session_key, find_rendition,
  rewrite_segments,
}

-- A handler of streams: the request's context, and what the handlers share.
abbrev pub StreamHandler : Type 0
StreamHandler = Context → Player → Option Response × Player

-- Without ffmpeg there is no session.
abbrev pub with_transcoder :
    (Manager → Option Response × Manager) → Player → Option Response × Player
with_transcoder next p = elim p.transcoder [
  | none ↦ (some (reply 404), p)
  | some m ↦ let (answer, m') = next m in (answer, record p { transcoder = some m' })
]

-- The answer to a request for a playlist that came to this end.
abbrev pub playlist_answer : (Str → Str) → Option (Result HlsError Str) → Option Response
playlist_answer rewrite none = none
playlist_answer rewrite (some (err _)) = some (reply 503)
playlist_answer rewrite (some (ok text)) = some (show (playlist_body (rewrite text)))

abbrev pub segment_answer : (Str → Bool) → Option (Result HlsError Str) → Option Response
segment_answer opens none = none
segment_answer opens (some (err _)) = some (reply 404)
segment_answer opens (some (ok path)) =
    some (if opens path then show (file_body path (codes "video/mp2t")) else reply 404)

-- The rendition of an item that a variant names, if it is offered.
unfoldable pub offered : Str → Str → JsonStore → Option Rendition
offered id quality s = elim (get_item id s) [
  | err _ ↦ none
  | ok it ↦ find_rendition (select_renditions it.width it.height it.bitrate) quality
]

module _ (sys : System) where
  -- `serveSegment`
  unfoldable pub serve_segment :
      ℕ → Time → (ℕ → Look) → Str → Str → Manager → Option Response × Manager
  serve_segment rounds now looks key seg m =
      let (found, m') = segment sys.join rounds now key seg looks m in
      (segment_answer sys.opens found, m')

  -- The session of a file and a rendition, and its playlist.
  unfoldable pub serve_rendition :
      ℕ → Launch → Str → Str → ℕ → Rendition → (Str → Str) → Manager → Option Response × Manager
  serve_rendition rounds l key input start_ticks rd rewrite m =
      let seek = if ltb 0 start_ticks then some (sys.seconds_text start_ticks) else none in
      let (made, m') =
        ensure sys.join sys.session_dir l.asked key (ffmpeg_args sys.join input seek rd) l.start
          m in
      elim made [
        | err _ ↦ (some (reply 500), m')
        | ok _ ↦
            let (text, m'') = playlist rounds l.read key l.polls m' in
            (playlist_answer rewrite text, m'')
      ]

  -- What both playlists have in common once the rendition is known.
  unfoldable pub serve_item :
      ℕ
      → Launch
      → HlsRequest
      → Str
      → Rendition
      → Str
      → JsonStore
      → Context
      → Manager
      → Option Response × Manager
  unfolding serve_rendition
  serve_item rounds l r quality rd prefix s ctx m =
      elim (item_stream sys.rel sys.content_type r.id s) [
        | err _ ↦ (some (reply 404), m)
        | ok st ↦
            let ticks = hls_start_ticks r in
            serve_rendition rounds l (hls_session_key r.id ticks quality) st.path ticks rd
              (λ text. rewrite_segments sys.trim_space text prefix ctx.client_auth.token ticks) m
      ]

  unfoldable pub handle_hls_variant : ℕ → Launch → HlsRequest → StreamHandler
  unfolding offered serve_item
  handle_hls_variant rounds l r ctx p =
      with_transcoder
        (λ m. elim (offered r.id r.quality p.store) [
          | none ↦ (some (reply 404), m)
          | some rd ↦ serve_item rounds l r r.quality rd [] p.store ctx m
        ])
        p

  unfoldable pub handle_hls_playlist : ℕ → Launch → HlsRequest → StreamHandler
  unfolding serve_item
  handle_hls_playlist rounds l r ctx p =
      with_transcoder
        (λ m. serve_item rounds l r auto_rendition.name auto_rendition (codes "hls/") p.store ctx m)
        p

  unfoldable pub handle_hls_variant_segment : ℕ → Time → (ℕ → Look) → HlsRequest → StreamHandler
  unfolding serve_segment
  handle_hls_variant_segment rounds now looks r ctx p =
      with_transcoder
        (λ m.
          serve_segment rounds now looks (hls_session_key r.id (hls_start_ticks r) r.quality) r.seg
            m)
        p

  unfoldable pub handle_hls_segment : ℕ → Time → (ℕ → Look) → HlsRequest → StreamHandler
  unfolding serve_segment
  handle_hls_segment rounds now looks r ctx p =
      with_transcoder
        (λ m.
          serve_segment rounds now looks
            (hls_session_key r.id (hls_start_ticks r) auto_rendition.name) r.seg m)
        p
