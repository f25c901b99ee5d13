-- ===== src/Livetv/Guide.antt =====
-- internal/livetv/service.go: the television guide. `normalize` is normalizeChannelName, whose regular
-- expressions are not modelled.
use cubozoa.Prelude.{
  ℕ, ◌+◌, ◌*◌, ◌-◌, Bool, not, ◌&&◌, ◌||◌, Option, none, some, List, [], ◌∷◌, ◌++◌, map, Str,
  is_empty, find, keep, ltb, leb, ◌==◌, if◌then◌else◌,
}
use cubozoa.Prelude.Map
use cubozoa.Prelude.Map.{Map, get, has}
use cubozoa.Store.Models.{Time}
use cubozoa.Livetv.M3u.{Channel}

pub record Program : Type 0 where
  pub id : Str
  pub channel_tvg_id : Str
  pub title : Str
  pub description : Str
  pub category : Str
  pub start : Time
  pub stop : Time

pub record GuideChannel : Type 0 where
  pub id : Str
  pub names : List Str

pub record GuideEntry : Type 0 where
  pub channel_id : Str
  pub program : Program

-- What a reload leaves for the lookups.
pub record Service : Type 0 where
  pub channels : List Channel
  pub by_id : Map Channel
  pub programs_by_tvg : Map (List Program)
  pub name_index : Map Str
  pub aliases : Map Str
  pub guide_start : Time
  pub guide_end : Time
  pub loaded_at : Time

-- `Channel`
unfoldable pub channel : Str → Service → Option Channel
channel id s = get id s.by_id

unfoldable pub stream_url : Str → Service → Option Str
unfolding channel
stream_url id s = elim (channel id s) [ none ↦ none | some c ↦ some c.url ]

-- `sort.SliceStable` by start: an entry comes behind those that start no later.
unfoldable pub insert_by : {A : Type 0} → (A → Time) → A → List A → List A
insert_by start e [] = e ∷ []
insert_by start e (x ∷ xs) =
    let rest = insert_by start e xs in if ltb (start e) (start x) then e ∷ x ∷ xs else x ∷ rest

unfoldable pub sort_by : {A : Type 0} → (A → Time) → List A → List A → List A
unfolding insert_by
sort_by start [] sorted = sorted
sort_by start (e ∷ es) sorted = sort_by start es (insert_by start e sorted)

-- `byTvg[p.ChannelTvgID] = append(...)`
unfoldable pub bucket : List Program → Map (List Program) → Map (List Program)
bucket [] m = m
bucket (p ∷ ps) m =
    let old : List Program = elim (get p.channel_tvg_id m) [ none ↦ [] | some l ↦ l ] in
    bucket ps (Map.put p.channel_tvg_id (old ++ p ∷ []) m)

unfoldable sort_buckets : Map (List Program) → Map (List Program)
unfolding sort_by
sort_buckets [] = []
sort_buckets ((tvg, ps) ∷ m) = (tvg, sort_by (λ (p : Program). p.start) ps []) ∷ sort_buckets m

-- The window's ends so far, where 0 is no time yet.
unfoldable pub window : List Program → Time × Time → Time × Time
window [] span = span
window (p ∷ ps) (start, end) = window ps (
  (if (start == 0) || ltb p.start start then p.start else start),
  (if (end == 0) || ltb end p.stop then p.stop else end),
)

unfoldable pub group_programs : List Program → Map (List Program) × (Time × Time)
unfolding bucket sort_buckets window
group_programs ps = (sort_buckets (bucket ps []), window ps (0, 0))

-- The entries of a window: they end after its start and begin before its end.
unfoldable pub overlaps : Time → Time → Program → Bool
overlaps from to p = ltb from p.stop && ltb p.start to

unfoldable pub airs : Time → Program → Bool
airs at p = leb p.start at && ltb at p.stop

unfoldable numeric_loop : Str → ℕ → ℕ
numeric_loop [] n = n
numeric_loop (c ∷ s) n =
    let rest = numeric_loop s (n * 10 + (c - b'0')) in if leb b'0' c && leb c b'9' then rest else n

-- A text that starts with no digit comes last. The number is exact: below 2 ^ 63 the `int` is, too.
unfoldable pub numeric : Str → ℕ
unfolding numeric_loop
numeric [] = 1_073_741_824
numeric (c ∷ s) =
    let n = numeric_loop (c ∷ s) 0 in if leb b'0' c && leb c b'9' then n else 1_073_741_824

module _ (normalize : Str → Str) where
  unfoldable index_names : Str → List Str → Map Str → Map Str
  index_names id [] idx = idx
  index_names id (name ∷ names) idx =
      let k = normalize name in
      let kept = index_names id names idx in
      let added = index_names id names (Map.put k id idx) in
      if is_empty k || has k idx then kept else added

  unfoldable index_channels : List GuideChannel → Map Str → Map Str
  unfolding index_names
  index_channels [] idx = idx
  index_channels (c ∷ cs) idx = index_channels cs (index_names c.id c.names idx)

  unfoldable pub build_name_index : List GuideChannel → Map Str
  unfolding index_channels
  build_name_index cs = index_channels cs []

  unfoldable resolve_tvg_id : Service → Channel → Str
  resolve_tvg_id s ch =
      let by_name : Str = elim (get (normalize ch.name) s.name_index) [
        | none ↦ ch.tvg_id
        | some id ↦ id
      ] in
      elim (get (normalize ch.name) s.aliases) [
        | some id ↦ id
        | none ↦
            if not (is_empty ch.tvg_id) && has ch.tvg_id s.programs_by_tvg
            then ch.tvg_id
            else by_name
      ]

  -- The programmes of a channel; one that resolves to no guide identity has none.
  unfoldable pub programs_of : Service → Channel → List Program
  unfolding resolve_tvg_id
  programs_of s ch =
      let tvg = resolve_tvg_id s ch in
      if is_empty tvg then [] else elim (get tvg s.programs_by_tvg) [ none ↦ [] | some ps ↦ ps ]

  unfoldable pub entries : Service → Time → Time → List Channel → List GuideEntry
  unfolding programs_of overlaps
  entries s from to [] = []
  entries s from to (ch ∷ chs) =
      map (λ (p : Program). record { channel_id = ch.id; program = p })
        (keep (overlaps from to) (programs_of s ch))
      ++ entries s from to chs

  unfoldable pub targets : Service → List Str → List Channel
  targets s [] = []
  targets s (id ∷ ids) =
      let rest = targets s ids in elim (get id s.by_id) [ none ↦ rest | some ch ↦ ch ∷ rest ]

  unfoldable pub programs : Service → List Str → Time → Time → List GuideEntry
  unfolding entries sort_by
  programs s [] from to =
      sort_by (λ (e : GuideEntry). e.program.start) (entries s from to s.channels) []
  programs s (id ∷ ids) from to =
      sort_by (λ (e : GuideEntry). e.program.start) (entries s from to (targets s (id ∷ ids))) []

  unfoldable pub current_program : Service → Str → Time → Option GuideEntry
  unfolding programs_of airs
  current_program s channel_id at = elim (get channel_id s.by_id) [
    | none ↦ none
    | some ch ↦ elim (find (airs at) (programs_of s ch)) [
      | none ↦ none
      | some p ↦ some (record { channel_id = ch.id; program = p })
    ]
  ]
