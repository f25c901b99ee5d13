-- ===== src/Server/Hls/Agreement.antt =====
-- How the handlers of internal/server/handlers_livetv_stream.go agree on the session of a channel.
use cubozoa.Prelude.{
  if◌then◌else◌, ◌++◌, ℕ, suc, ◌≡◌, refl, sym, ap, ◌∙◌, true, Option, none, some, Str, codes,
  Result, ok, err, arith, Option-cases, inl, inr,
}
use cubozoa.Prelude.Map
use cubozoa.Prelude.Map.{Map, get-put_self}
use cubozoa.Store.Models.{Time}
use cubozoa.Livetv.Guide.{stream_url}
use cubozoa.Transcode.Hls.Manager.{Session, Manager, HlsError}
use cubozoa.Transcode.Hls.Wait.{Look, is_segment_name, await_segment, segment}
use cubozoa.Transcode.Hls.Stuck.{get_session_found}
use cubozoa.Server.Login.{Context, playlist_body}
use cubozoa.Server.Users.{show}
use cubozoa.Server.Hls.{Player, System, Launch, rewrite_segments}
use cubozoa.Server.Hls.OnDemand.{playlist_answer, segment_answer, serve_segment}
use cubozoa.Server.Hls.Live.{
  remember, live_session_key, live_reencode, attempt_live, handle_live_stream, handle_live_segment,
}
use cubozoa.Server.Hls.Attempts.{attempt_live_found, remembered}

segment_served :
    (join : Str → Str → Str) (rounds now : ℕ) (key seg : Str) (looks : ℕ → Look) (m : Manager)
    (sess : Session)
    → is_segment_name seg ≡ true
    → (looks 0).is_file ≡ true
    → Map.get key m.sessions ≡ some sess
    → (segment join (suc rounds) now key seg looks m).0 ≡ some (ok (join sess.dir seg))
unfolding segment await_segment
segment_served join rounds now key seg looks m sess n f e =
    rw (segment, n, get_session_found now key m sess e, await_segment, f)

-- A playlist is the answer only to an attempt that read one.
playlist_answer_sound :
    (rewrite : Str → Str) (o : Option (Result HlsError Str)) (text : Str)
    → playlist_answer rewrite o ≡ some (show (playlist_body text))
    → (found : Str) × (o ≡ some (ok found))
playlist_answer_sound rewrite none text h = absurd (cc)
playlist_answer_sound rewrite (some (err x)) text h = absurd (ground arith)
playlist_answer_sound rewrite (some (ok found)) text h = (found, refl)

module _ (sys : System) where
  live_segment_served :
      (rounds : ℕ) (now : Time) (looks : ℕ → Look) (id seg : Str) (ctx : Context) (p : Player)
      (m : Manager) (sess : Session)
      → p.transcoder ≡ some m
      → is_segment_name seg ≡ true
      → (looks 0).is_file ≡ true
      → Map.get (live_session_key id (live_reencode id p)) m.sessions ≡ some sess
      → (handle_live_segment sys (suc rounds) now looks id seg ctx p).0
        ≡ segment_answer sys.opens (some (ok (sys.join sess.dir seg)))
  unfolding handle_live_segment serve_segment
  live_segment_served rounds now looks id seg ctx p m sess e n f found =
      rw (handle_live_segment, e, serve_segment)
        (ap (segment_answer sys.opens) (
          segment_served sys.join rounds now (live_session_key id (live_reencode id p)) seg looks m
            sess n f found))

  -- A request that comes to attempts.
  IsAttempt : (rounds : ℕ) (first second : Launch) (id : Str) (ctx : Context) (p : Player) → Type 0
  IsAttempt rounds first second id ctx p =
      (m : Manager) × (upstream : Str) × ((handle_live_stream sys rounds first second id ctx p).0
        ≡ playlist_answer
            (λ t. rewrite_segments sys.trim_space t (codes "live/") ctx.client_auth.token 0)
            (attempt_live sys rounds first second id upstream (live_reencode id p) m).0)
      × ((handle_live_stream sys rounds first second id ctx p).1.transcoder
          ≡ some (attempt_live sys rounds first second id upstream (live_reencode id p) m).1)
      × ((handle_live_stream sys rounds first second id ctx p).1.live_reencode
          ≡ remember id (attempt_live sys rounds first second id upstream (live_reencode id p) m).2
              p.live_reencode)

  stream_IsAttempt :
      (rounds : ℕ) (first second : Launch) (id : Str) (ctx : Context) (p : Player) (text : Str)
      → (handle_live_stream sys rounds first second id ctx p).0 ≡ some (show (playlist_body text))
      → IsAttempt rounds first second id ctx p
  unfolding handle_live_stream IsAttempt
  stream_IsAttempt rounds first second id ctx p text h = elim (Option-cases p.transcoder) [
    | inl e ↦ absurd (ground (arith, h, e))
    | inr (m, e) ↦ elim (Option-cases p.live_tv) [
      | inl e2 ↦ absurd (ground (arith, h, e, e2))
      | inr (tv, e2) ↦ elim (Option-cases (stream_url id tv)) [
        | inl e3 ↦ absurd (ground (arith, h, e, e2, e3))
        | inr (upstream, e3) ↦ (
          m,
          upstream,
          rw (handle_live_stream, e, e2, e3),
          rw (handle_live_stream, e, e2, e3),
          rw (handle_live_stream, e, e2, e3),
        )
      ]
    ]
  ]

  -- Once a request for the live playlist of a channel is answered with one, the table has a session
  -- under the channel's own key, that of its copied stream or, if this is remembered of the channel,
  -- that of the stream that is encoded anew; and the next request for a segment of the channel that
  -- ffmpeg has written is served from the directory of just this session, if the file opens.
  pub segment_after_playlist :
      (rounds : ℕ) (first second : Launch) (id : Str) (ctx : Context) (p : Player) (text seg : Str)
      (now : Time) (looks : ℕ → Look)
      → (handle_live_stream sys rounds first second id ctx p).0 ≡ some (show (playlist_body text))
      → is_segment_name seg ≡ true
      → (looks 0).is_file ≡ true
      → (m : Manager) × (sess : Session) × ((handle_live_stream sys rounds first second id ctx
            p).1.transcoder
          ≡ some m)
        × (Map.get
              ((if live_reencode id (handle_live_stream sys rounds first second id ctx p).1
                  then codes "livetc:"
                  else codes "live:")
                ++ id)
              m.sessions
            ≡ some sess)
        × ((handle_live_segment sys
              (suc rounds)
              now
              looks
              id
              seg
              ctx
              (handle_live_stream sys rounds first second id ctx p).1).0
            ≡ segment_answer sys.opens (some (ok (sys.join sess.dir seg))))
  unfolding IsAttempt live_session_key
  segment_after_playlist rounds first second id ctx p text seg now looks h n f =
      let (m, upstream, answer, kept, set) = stream_IsAttempt rounds first second id ctx p text h in
      let tried = attempt_live sys rounds first second id upstream (live_reencode id p) m in
      let (found, read) = playlist_answer_sound _ tried.0 text (sym answer ∙ h) in
      let (sess, there) =
        attempt_live_found sys rounds first second id upstream found (live_reencode id p) m read in
      let chosen = remembered sys rounds first second id upstream m p.live_reencode in
      let keyed =
        ap (λ l. Map.get (live_session_key id (Map.has id l)) tried.1.sessions) set
        ∙ ap (λ b. Map.get (live_session_key id b) tried.1.sessions) chosen
        ∙ there in
      (
        tried.1,
        sess,
        kept,
        keyed,
        live_segment_served rounds now looks id seg ctx
            (handle_live_stream sys rounds first second id ctx p).1 tried.1 sess kept n f keyed,
      )
