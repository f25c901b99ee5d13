-- ===== src/Server/Hls/Live.antt =====
-- internal/server/handlers_livetv_stream.go: the live stream of a television channel, copied if its
-- codecs allow that and else encoded anew.
use cubozoa.Prelude.{
  ℕ, Bool, true, false, not, ◌&&◌, Option, none, some, ◌++◌, Str, codes, Result, ok, err,
  if◌then◌else◌,
}
use cubozoa.Prelude.Map
use cubozoa.Prelude.Map.{Map}
use cubozoa.Store.Models.{Time}
use cubozoa.Livetv.Guide.{stream_url}
use cubozoa.Transcode.Hls.Manager.{Manager, HlsError, session_failed, ensure, kill}
use cubozoa.Transcode.Hls.Args.{live_args}
use cubozoa.Transcode.Hls.Wait.{Look, playlist}
use cubozoa.Server.Login.{reply}
use cubozoa.Server.Hls.{Player, System, Launch, rewrite_segments}
use cubozoa.Server.Hls.OnDemand.{StreamHandler, with_transcoder, playlist_answer, serve_segment}

unfoldable pub live_session_key : Str → Bool → Str
live_session_key channel_id reencode =
    (if reencode then codes "livetc:" else codes "live:") ++ channel_id

abbrev pub live_reencode : Str → Player → Bool
live_reencode channel_id p = Map.has channel_id p.live_reencode

-- The channels to encode anew after a request that made the choice.
unfoldable pub remember : Str → Bool → Map (Unit {0}) → Map (Unit {0})
remember id reencode set = if reencode && not (Map.has id set) then Map.put id tt set else set

-- `errors.Is(err, transcode.ErrSessionFailed)`
abbrev pub is_session_failed : Option (Result HlsError Str) → Bool
is_session_failed (some (err session_failed)) = true
is_session_failed _ = false

module _ (sys : System) where
  unfoldable pub start_live :
      ℕ → Launch → Str → Str → Bool → Manager → Option (Result HlsError Str) × Manager
  unfolding live_session_key
  start_live rounds l id upstream reencode m =
      let key = live_session_key id reencode in
      let (made, m') =
        ensure sys.join sys.session_dir l.asked key (live_args sys.join upstream reencode) l.start
          m in
      elim made [ err e ↦ (some (err e), m') | ok _ ↦ playlist rounds l.read key l.polls m' ]

  -- The first attempt, and the second one if the first one failed to copy. `reencode` is the choice
  -- before, and the Boolean that is returned is the one after.
  unfoldable pub attempt_live :
      ℕ
      → Launch
      → Launch
      → Str
      → Str
      → Bool
      → Manager
      → Option (Result HlsError Str) × Manager × Bool
  unfolding start_live
  attempt_live rounds first second id upstream reencode m =
      let (text, m') = start_live rounds first id upstream reencode m in
      let stopped = kill (live_session_key id false) m' in
      let (again, m'') = start_live rounds second id upstream true stopped in
      if is_session_failed text && not reencode then (again, m'', true) else (text, m', reencode)

  unfoldable pub handle_live_stream : ℕ → Launch → Launch → Str → StreamHandler
  unfolding attempt_live remember
  handle_live_stream rounds first second id ctx p = elim p.transcoder [
    | none ↦ (some (reply 404), p)
    | some m ↦ elim p.live_tv [
      | none ↦ (some (reply 404), p)
      | some tv ↦ elim (stream_url id tv) [
        | none ↦ (some (reply 404), p)
        | some upstream ↦
            let before = live_reencode id p in
            let (text, m', after) = attempt_live rounds first second id upstream before m in
            (
              playlist_answer
                  (λ t. rewrite_segments sys.trim_space t (codes "live/") ctx.client_auth.token 0)
                  text,
              record p { transcoder = some m'; live_reencode = remember id after p.live_reencode },
            )
      ]
    ]
  ]

  unfoldable pub handle_live_segment : ℕ → Time → (ℕ → Look) → Str → Str → StreamHandler
  unfolding serve_segment live_session_key
  handle_live_segment rounds now looks id seg ctx p =
      with_transcoder
        (λ m. serve_segment sys rounds now looks (live_session_key id (live_reencode id p)) seg m) p
