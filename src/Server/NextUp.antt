-- ===== src/Server/NextUp.antt =====
-- internal/server/handlers_shows.go: nextUp, the episodes to watch next. `ud` is the caller's data by
-- item.
use cubozoa.Prelude.{
  ℕ, zero, suc, not, ◌&&◌, Option, none, some, List, [], ◌∷◌, ◌++◌, map, str_eq, ltb, if◌then◌else◌,
  sort_stable,
}
use cubozoa.Prelude.Map
use cubozoa.Prelude.Map.{Map}
use cubozoa.Store.Models.{Time, MediaItem, UserItemData}

-- `order` and `bySeries` together: the episodes of each series, in the order in which the series come.
unfoldable pub add_episode : MediaItem → Map (List MediaItem) → Map (List MediaItem)
add_episode e [] = (e.series_id, e ∷ []) ∷ []
add_episode e ((sid, eps) ∷ m) =
    let rest = add_episode e m in
    if str_eq sid e.series_id then (sid, eps ++ (e ∷ [])) ∷ m else (sid, eps) ∷ rest

unfoldable pub by_series : List MediaItem → Map (List MediaItem) → Map (List MediaItem)
unfolding add_episode
by_series [] m = m
by_series (e ∷ es) m = by_series es (add_episode e m)

-- The variables of the loop over one series; `none` is the index -1.
pub record Progress : Type 0 where
  pub last_played : Option ℕ
  pub in_progress : Option ℕ
  pub activity : Time

abbrev pub no_progress : Progress
no_progress = record { last_played = none; in_progress = none; activity = 0 }

abbrev pub first_of : Option ℕ → ℕ → Option ℕ
first_of none i = some i
first_of (some j) i = some j

-- What one episode at index `i` adds.
unfoldable pub note : ℕ → Option UserItemData → Progress → Progress
note i none p = p
note i (some d) p = record {
  last_played = if d.played then some i else p.last_played;
  in_progress =
      if not d.played && ltb 0 d.playback_position_ticks
      then first_of p.in_progress i
      else p.in_progress;
  activity = if ltb p.activity d.last_played_at then d.last_played_at else p.activity;
}

unfoldable pub progress_of : Map UserItemData → ℕ → List MediaItem → Progress → Progress
unfolding note
progress_of ud i [] p = p
progress_of ud i (e ∷ es) p = progress_of ud (suc i) es (note i (Map.get e.id ud) p)

-- `list[i]`, or nothing past the end.
unfoldable pub get_elem? : List MediaItem → ℕ → Option MediaItem
get_elem? [] i = none
get_elem? (e ∷ es) zero = some e
get_elem? (e ∷ es) (suc i) = get_elem? es i

-- The choice within one series.
abbrev pub pick_at : Option ℕ → Option ℕ → List MediaItem → Option MediaItem
pick_at (some i) last eps = get_elem? eps i
pick_at none (some i) eps = get_elem? eps (suc i)
pick_at none none eps = none

pub record Candidate : Type 0 where
  pub ep : MediaItem
  pub seen : Time

unfoldable pub candidate : Map UserItemData → List MediaItem → List Candidate
unfolding progress_of get_elem?
candidate ud eps =
    let p = progress_of ud 0 eps no_progress in
    elim (pick_at p.in_progress p.last_played eps) [
      | none ↦ []
      | some e ↦ record { ep = e; seen = p.activity } ∷ []
    ]

unfoldable pub candidates : Map UserItemData → Map (List MediaItem) → List Candidate
unfolding candidate
candidates ud [] = []
candidates ud ((sid, eps) ∷ m) = candidate ud eps ++ candidates ud m

unfoldable pub next_up : List MediaItem → Map UserItemData → List MediaItem
unfolding by_series candidates
next_up episodes ud =
    map (λ (c : Candidate). c.ep)
      (sort_stable (λ (a b : Candidate). ltb b.seen a.seen) (candidates ud (by_series episodes [])))
