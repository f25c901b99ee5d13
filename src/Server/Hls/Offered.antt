-- ===== src/Server/Hls/Offered.antt =====
-- Which processes the handlers of internal/server/handlers_hls.go start.
use mathlib.Core.List.{Memᴰ}
use cubozoa.Prelude.{
  ℕ, ◌≡◌, refl, sym, ap, ◌∙◌, subst, true, ltb, Option, none, some, List, [], ◌∷◌, Str, str_eq,
  str_eq_iff, All, All-map, ok, arith, Bool-cases, Option-cases, Result-cases, inl, inr, leb,
  length, is_empty, if◌then◌else◌,
}
use cubozoa.Prelude.Map
use cubozoa.Store.Models.{Time, Library, MediaItem}
use cubozoa.Store.State.{JsonStore}
use cubozoa.Store.Catalog.{get_item, get_library}
use cubozoa.Store.Invariant.{IsValid}
use cubozoa.Store.Exec.{run}
use cubozoa.Media.Files.{within_root, item_stream}
use cubozoa.Media.Containment.{item_stream_contained, stream_source}
use cubozoa.Transcode.Abr.{Rendition, select_renditions}
use cubozoa.Transcode.Hls.Manager.{
  Process, Manager, Start, kill, oldest_of, evict_oldest, make_room, ensure, get_session,
}
use cubozoa.Transcode.Hls.Args.{ffmpeg_args}
use cubozoa.Transcode.Hls.Wait.{Poll, playlist}
use cubozoa.Server.Login.{Context}
use cubozoa.Server.Hls.{Player, System, HlsRequest, Launch, find_rendition}
use cubozoa.Server.Hls.OnDemand.{serve_rendition, offered, serve_item, handle_hls_variant}

get_session-processes :
    (now : Time) (key : Str) (m : Manager) → (get_session now key m).1.processes ≡ m.processes
unfolding get_session
get_session-processes now key m = elim (Option-cases (Map.get key m.sessions)) [
  | inl e ↦ rw (e, get_session)
  | inr (s, e) ↦ rw (e, get_session)
]

module _ (P : Process → Type 0) where
  All-kill : (id : Str) (m : Manager) → All P m.processes → All P (kill id m).processes
  unfolding kill
  All-kill id m h = elim (Option-cases (Map.get id m.sessions)) [
    | inl e ↦ rw (e, kill) h
    | inr (s, e) ↦ rw (e, kill) h
  ]

  All-make_room : (m : Manager) → All P m.processes → All P (make_room m).processes
  unfolding make_room evict_oldest
  All-make_room m h = elim (Bool-cases (leb m.max_sessions (length m.sessions))) [
    | inr f ↦ rw (f, make_room) h
    | inl f ↦ elim (Bool-cases (is_empty (oldest_of m.sessions [] 0))) [
      | inl e ↦ rw (f, e, make_room, evict_oldest) h
      | inr e ↦ rw (f, e, make_room, evict_oldest) (All-kill (oldest_of m.sessions [] 0) m h)
    ]
  ]

  module _ (join : Str → Str → Str) (session_dir : Str → Str) where
    -- What holds of the processes before, and of one with the arguments given, holds after.
    pub All-ensure :
        (now : Time) (key : Str) (args : Str → List Str) (start : Start) (m : Manager)
        → All P m.processes
        → ((pid : ℕ) (dir : Str) → P (record { pid = pid; args = args dir }))
        → All P (ensure join session_dir now key args start m).1.processes
    unfolding ensure
    All-ensure now key args start m h new = elim (Option-cases (Map.get key m.sessions)) [
      | inr (sess, e) ↦ rw (e, ensure) h
      | inl e ↦ elim (Bool-cases start.mkdir_ok) [
        | inr f ↦ rw (e, ensure) (rw f (All-make_room m h))
        | inl f ↦ elim (Option-cases start.pid) [
          | inl g ↦ rw (e, ensure) (rw f (rw (g, ensure) (All-make_room m h)))
          | inr (pid, g) ↦
              rw (e, ensure)
                (rw f (
                  rw (g, ensure)
                    (new pid (join (make_room m).base_dir (session_dir key)), All-make_room m h)))
        ]
      ]
    ]

  All-playlist :
      (rounds now : ℕ) (key : Str) (polls : ℕ → Poll) (m : Manager)
      → All P m.processes
      → All P (playlist rounds now key polls m).1.processes
  unfolding playlist
  All-playlist rounds now key polls m h =
      let kept = subst (All P) (sym (get_session-processes now key m)) h in
      elim (Option-cases (get_session now key m).0) [
        | inl e ↦ rw (e, playlist) kept
        | inr (s, e) ↦ rw (e, playlist) kept
      ]

  module _ (sys : System) where
    All-serve_rendition :
        (rounds : ℕ) (l : Launch) (key input : Str) (ticks : ℕ) (rd : Rendition)
        (rewrite : Str → Str) (m : Manager)
        → All P m.processes
        → ((pid : ℕ) (seek : Option Str) (dir : Str)
            → P (record { pid = pid; args = ffmpeg_args sys.join input seek rd dir }))
        → All P (serve_rendition sys rounds l key input ticks rd rewrite m).1.processes
    unfolding serve_rendition
    All-serve_rendition rounds l key input ticks rd rewrite m h new =
        let seek : Option Str = if ltb 0 ticks then some (sys.seconds_text ticks) else none in
        let args = ffmpeg_args sys.join input seek rd in
        let made = ensure sys.join sys.session_dir l.asked key args l.start m in
        let after =
          All-ensure sys.join sys.session_dir l.asked key args l.start m h
            (λ pid dir. new pid seek dir) in
        elim (Result-cases made.0) [
          | inl (x, e) ↦ rw (e, serve_rendition) after
          | inr (sess, e) ↦
              rw (e, serve_rendition) (All-playlist rounds l.read key l.polls made.1 after)
        ]

-- Every element of a list is one of it.
All-Memᴰ : {A : Type 0} (xs : List A) → All (λ x. Memᴰ x xs) xs
All-Memᴰ [] = tt
All-Memᴰ (x ∷ xs) = (Memᴰ.head refl, All-map (λ y. Memᴰ.tail) xs (All-Memᴰ xs))

find_rendition_sound :
    (rds : List Rendition) (name : Str) (rd : Rendition)
    → find_rendition rds name ≡ some rd
    → Memᴰ rd rds × (rd.name ≡ name)
unfolding find_rendition
find_rendition_sound [] name rd h = absurd (cc)
find_rendition_sound (r ∷ rds) name rd h = elim (Bool-cases (str_eq r.name name)) [
  | inl e ↦
      let same : r ≡ rd = ground (arith, h, e) in
      (
        Memᴰ.head (sym same),
        ap (λ (x : Rendition). x.name) (sym same) ∙ (str_eq_iff r.name name).0 e,
      )
  | inr e ↦
      let (there, named) = find_rendition_sound rds name rd (ground (arith, h, e)) in
      (Memᴰ.tail there, named)
]

offered_sound :
    (id quality : Str) (s : JsonStore) (it : MediaItem) (rd : Rendition)
    → get_item id s ≡ ok it
    → offered id quality s ≡ some rd
    → Memᴰ rd (select_renditions it.width it.height it.bitrate) × (rd.name ≡ quality)
unfolding offered
offered_sound id quality s it rd g h =
    find_rendition_sound (select_renditions it.width it.height it.bitrate) quality rd
      (ground (arith, g, h))

same_path :
    (id : Str) (s : JsonStore) (a b : MediaItem)
    → get_item id s ≡ ok a
    → get_item id s ≡ ok b
    → a.path ≡ b.path
same_path id s a b e f = ground (arith, e, f)

module _ (sys : System) (fold : Str → Str) where
  -- A process that was there before, or one that transcodes the requested item's file, which lies
  -- within the root of its library, in a rendition of the requested name that is offered for the item.
  pub data IsDue (id quality : Str) (s : JsonStore) (before : List Process) : Process → Type 0 where
    old : {pr : Process} → Memᴰ pr before → IsDue id quality s before pr
    due :
        (pid : ℕ) (seek : Option Str) (dir path : Str) (rd : Rendition) (it : MediaItem)
        (lib : Library)
        → get_item id s ≡ ok it
        → get_library it.library_id s ≡ ok lib
        → path ≡ it.path
        → within_root sys.rel lib.path path ≡ true
        → Memᴰ rd (select_renditions it.width it.height it.bitrate)
        → rd.name ≡ quality
        → IsDue id quality s before
            (record { pid = pid; args = ffmpeg_args sys.join path seek rd dir })

  serve_item-IsDue :
      (rounds : ℕ) (l : Launch) (r : HlsRequest) (rd : Rendition) (s : JsonStore) (ctx : Context)
      (m : Manager)
      → IsValid fold s.mem
      → offered r.id r.quality s ≡ some rd
      → All
          (IsDue r.id r.quality s m.processes)
          (serve_item sys rounds l r r.quality rd [] s ctx m).1.processes
  unfolding serve_item run
  serve_item-IsDue rounds l r rd s ctx m valid e =
      let before = All-map (λ pr. old) m.processes (All-Memᴰ m.processes) in
      elim (Result-cases (item_stream sys.rel sys.content_type r.id s)) [
        | inl (x, f) ↦ rw (f, serve_item) before
        | inr (st, f) ↦
            let (it, lib, g, gl, inside) =
              item_stream_contained sys.rel sys.content_type fold [] s r.id {st = st} tt valid f in
            let (it', g', kept, same) =
              stream_source sys.rel sys.content_type fold r.id s {st = st} f in
            let its_path = same ∙ same_path r.id s it' it g' g in
            let (there, named) = offered_sound r.id r.quality s it rd g e in
            rw (f, serve_item)
              (All-serve_rendition (IsDue r.id r.quality s m.processes) sys rounds l _ st.path _ rd
                _ m before
                (λ pid seek dir.
                  due pid seek dir st.path rd it lib g gl its_path inside there named))
      ]

  -- In a valid store a request for a variant leaves no process but those that ran before and one that
  -- transcodes the requested item's file, which lies within the root of the item's library, in a
  -- rendition of the requested name that is offered for the item.
  pub handle_hls_variant-IsDue :
      (rounds : ℕ) (l : Launch) (r : HlsRequest) (ctx : Context) (p : Player) (m : Manager)
      → IsValid fold p.store.mem
      → p.transcoder ≡ some m
      → (m' : Manager) × ((handle_hls_variant sys rounds l r ctx p).1.transcoder ≡ some m')
        × All (IsDue r.id r.quality p.store m.processes) m'.processes
  unfolding handle_hls_variant
  handle_hls_variant-IsDue rounds l r ctx p m valid h =
      elim (Option-cases (offered r.id r.quality p.store)) [
        | inl e ↦ (
          m,
          rw (handle_hls_variant, h, e),
          All-map (λ pr. old) m.processes (All-Memᴰ m.processes),
        )
        | inr (rd, e) ↦ (
          (serve_item sys rounds l r r.quality rd [] p.store ctx m).1,
          rw (handle_hls_variant, h, e),
          serve_item-IsDue rounds l r rd p.store ctx m valid e,
        )
      ]
