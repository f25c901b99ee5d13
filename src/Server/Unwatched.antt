-- ===== src/Server/Unwatched.antt =====
-- What nextUp of internal/server/handlers_shows.go offers.
use cubozoa.Prelude.{
  ℕ, suc, ◌+◌, ◌≡◌, ◌⊎◌, inl, inr, refl, sym, ap, ◌∙◌, Bool, false, Option, none, some, List, [],
  ◌∷◌, map, All, All-append, Bool-cases, Option-cases, sort_stable, sort_into, insert_stable-All,
  arith,
}
use cubozoa.Prelude.Map
use cubozoa.Prelude.Map.{Map}
use cubozoa.Store.Models.{MediaItem, UserItemData}
use cubozoa.Server.NextUp.{
  Progress, Candidate, no_progress, note, progress_of, get_elem?, pick_at, candidate, candidates,
  by_series, next_up,
}

abbrev played_of : Option UserItemData → Bool
played_of none = false
played_of (some d) = d.played

abbrev pub is_watched : Map UserItemData → MediaItem → Bool
is_watched ud e = played_of (Map.get e.id ud)

note-in_progress :
    (i : ℕ) (o : Option UserItemData) (p : Progress)
    → ((note i o p).in_progress ≡ p.in_progress)
      ⊎ (((note i o p).in_progress ≡ some i) × (played_of o ≡ false))
unfolding note
note-in_progress i none p = inl refl
note-in_progress i (some d) p = elim (Bool-cases d.played) [
  | inl e ↦ inl (ground (arith, e))
  | inr e ↦ elim (Option-cases p.in_progress) [
    | inr (j, f) ↦ inl (ground (arith, e, f))
    | inl f ↦ ground (arith, e, f)
  ]
]

note-last_played :
    (i : ℕ) (o : Option UserItemData) (p : Progress)
    → ((note i o p).last_played ≡ some i)
      ⊎ (((note i o p).last_played ≡ p.last_played) × (played_of o ≡ false))
unfolding note
note-last_played i none p = inr (refl, refl)
note-last_played i (some d) p = elim (Bool-cases d.played) [
  | inl e ↦ inl (rw (e, note) refl)
  | inr e ↦ inr (rw (e, note) refl, e)
]

shift : (i j : ℕ) → suc i + j ≡ i + suc j
shift i j = omega arith

add_zero : (i : ℕ) → i ≡ i + 0
add_zero i = omega arith

from_zero : (j : ℕ) → 0 + j ≡ j
from_zero j = omega arith

module _ (ud : Map UserItemData) where
  abbrev Unwatched : MediaItem → Type 0
  Unwatched e = is_watched ud e ≡ false

  next-Unwatched :
      (es : List MediaItem) (e : MediaItem)
      → All Unwatched es
      → get_elem? es 0 ≡ some e
      → Unwatched e
  unfolding get_elem?
  next-Unwatched [] e h g = absurd (cc)
  next-Unwatched (x ∷ es) e (h, hs) g = ground (arith, h)

  -- The episode in progress stands in the list and is not watched.
  progress-in_progress :
      (i : ℕ) (es : List MediaItem) (p : Progress)
      → ((progress_of ud i es p).in_progress ≡ p.in_progress)
        ⊎ ((j : ℕ) × (e : MediaItem) × ((progress_of ud i es p).in_progress ≡ some (i + j))
            × (get_elem? es j ≡ some e)
            × Unwatched e)
  unfolding progress_of get_elem?
  progress-in_progress i [] p = inl refl
  progress-in_progress i (x ∷ es) p =
      elim (progress-in_progress (suc i) es (note i (Map.get x.id ud) p)) [
        | inr (j, e, f, g, u) ↦ inr (suc j, e, f ∙ ap some (shift i j), g, u)
        | inl f ↦ elim (note-in_progress i (Map.get x.id ud) p) [
          | inl g ↦ inl (f ∙ g)
          | inr (g, u) ↦ inr (0, x, f ∙ g ∙ ap some (add_zero i), refl, u)
        ]
      ]

  -- The last watched episode is followed by one that is not watched, if by any.
  progress-last_played :
      (i : ℕ) (es : List MediaItem) (p : Progress)
      → (((progress_of ud i es p).last_played ≡ p.last_played) × All Unwatched es)
        ⊎ ((j : ℕ) × ((progress_of ud i es p).last_played ≡ some (i + j))
            × ((e : MediaItem) → get_elem? es (suc j) ≡ some e → Unwatched e))
  unfolding progress_of get_elem?
  progress-last_played i [] p = inl (refl, tt)
  progress-last_played i (x ∷ es) p =
      elim (progress-last_played (suc i) es (note i (Map.get x.id ud) p)) [
        | inr (j, f, h) ↦ inr (suc j, f ∙ ap some (shift i j), h)
        | inl (f, hs) ↦ elim (note-last_played i (Map.get x.id ud) p) [
          | inl g ↦ inr (0, f ∙ g ∙ ap some (add_zero i), λ e k. next-Unwatched es e hs k)
          | inr (g, u) ↦ inl (f ∙ g, (u, hs))
        ]
      ]

  pick-Unwatched :
      (es : List MediaItem) (e : MediaItem)
      → pick_at
          (progress_of ud 0 es no_progress).in_progress
          (progress_of ud 0 es no_progress).last_played
          es
        ≡ some e
      → Unwatched e
  pick-Unwatched es e h =
      let p = progress_of ud 0 es no_progress in
      elim (progress-in_progress 0 es no_progress) [
        | inr (j, x, f, g, u) ↦
            let q = sym (ap (λ (o : Option ℕ). pick_at o p.last_played es) f) ∙ h in
            ground (arith, q, g, u)
        | inl f ↦ elim (progress-last_played 0 es no_progress) [
          | inl (g, hs) ↦
              let q = sym (ap (λ (o : Option ℕ). pick_at o p.last_played es) f) ∙ h in
              let q' = sym (ap (λ (o : Option ℕ). pick_at none o es) g) ∙ q in absurd (cc)
          | inr (j, g, k) ↦
              let q = sym (ap (λ (o : Option ℕ). pick_at o p.last_played es) f) ∙ h in
              let q' =
                sym (ap (λ (o : Option ℕ). pick_at none o es) (g ∙ ap some (from_zero j))) ∙ q in
              k e q'
        ]
      ]

  abbrev Offers : Candidate → Type 0
  Offers c = Unwatched c.ep

  candidate-Offers : (es : List MediaItem) → All Offers (candidate ud es)
  unfolding candidate
  candidate-Offers es =
      let p = progress_of ud 0 es no_progress in
      elim (Option-cases (pick_at p.in_progress p.last_played es)) [
        | inl f ↦ rw (f, candidate) tt
        | inr (e, f) ↦ rw (f, candidate) (pick-Unwatched es e f, tt)
      ]

  candidates-Offers : (m : Map (List MediaItem)) → All Offers (candidates ud m)
  unfolding candidates
  candidates-Offers [] = tt
  candidates-Offers ((sid, es) ∷ m) =
      All-append Offers (candidate ud es) (candidates ud m) (candidate-Offers es)
        (candidates-Offers m)

  sorted-Offers :
      (less : Candidate → Candidate → Bool) (cs sorted : List Candidate)
      → All Offers cs
      → All Offers sorted
      → All Offers (sort_into less cs sorted)
  unfolding sort_into
  sorted-Offers less [] sorted h k = k
  sorted-Offers less (c ∷ cs) sorted (h, hs) k =
      sorted-Offers less cs _ hs (insert_stable-All less Offers c sorted h k)

  map-ep : (cs : List Candidate) → All Offers cs → All Unwatched (map (λ (c : Candidate). c.ep) cs)
  map-ep [] h = tt
  map-ep (c ∷ cs) (h, hs) = (h, map-ep cs hs)

  -- "Next Up" offers no episode that the user has watched, whatever was watched in whatever order.
  pub next_up-IsUnwatched :
      (episodes : List MediaItem) → All (λ e. is_watched ud e ≡ false) (next_up episodes ud)
  unfolding next_up sort_stable
  next_up-IsUnwatched episodes = map-ep _ (
      sorted-Offers _ (candidates ud (by_series episodes [])) []
        (candidates-Offers (by_series episodes [])) tt)
