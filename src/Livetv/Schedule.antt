-- ===== src/Livetv/Schedule.antt =====
-- What the guide of internal/livetv/service.go lists, and the programme that is on.
use mathlib.Core.List.{Memᴰ}
use mathlib.Core.List.Memᴰ
use cubozoa.Prelude.{
  ◌+◌, ◌<◌, ◌≡◌, ◌↔◌, refl, sym, ap, ◌∙◌, inl, inr, Bool, Option, none, some, List, [], ◌∷◌, ◌++◌,
  map, Str, find, keep, arith, Option-cases,
}
use cubozoa.Prelude.Map.{get}
use cubozoa.Store.Models.{Time}
use cubozoa.Livetv.M3u.{Channel}
use cubozoa.Livetv.Sorting.{sort_by_empty}
use cubozoa.Livetv.Guide.{
  Program, GuideEntry, Service, sort_by, overlaps, airs, programs_of, entries, targets, programs,
  current_program,
}

-- A programme as an entry of a channel.
abbrev pub in_entry : Channel → Program → GuideEntry
in_entry ch p = record { channel_id = ch.id; program = p }

map_empty : (ch : Channel) (ps : List Program) → (map (in_entry ch) ps ++ [] ≡ []) ↔ (ps ≡ [])
map_empty ch [] = (λ e. refl, λ e. refl)
map_empty ch (p ∷ ps) = (λ e. absurd (ground (arith, e)), λ e. absurd (ground (arith, e)))

airs-overlaps : (at : Time) (p : Program) → airs at p ≡ overlaps at (at + 1) p
unfolding airs overlaps
airs-overlaps at p = ground arith

-- A search fails exactly if the selection is empty.
find-keep :
    (p q : Program → Bool) (ps : List Program)
    → ((x : Program) → p x ≡ q x)
    → (find p ps ≡ none) ↔ (keep q ps ≡ [])
find-keep p q ps h = (to ps, from ps)
  where
    to : (l : List Program) → find p l ≡ none → keep q l ≡ []
    to [] e = refl
    to (x ∷ l) e = ground (arith, h x, to l)

    from : (l : List Program) → keep q l ≡ [] → find p l ≡ none
    from [] e = refl
    from (x ∷ l) e = ground (arith, h x, from l)

module _ (normalize : Str → Str) (s : Service) where
  -- What a guide entry of a window is to be: a programme of a channel that is asked for and known, under
  -- the channel's identity, which ends after the window begins and begins before it ends.
  pub record IsAired (ids : List Str) (from to : Time) (e : GuideEntry) : Type 0 where
    pub id : Str
    pub ch : Channel
    pub asked : Memᴰ id ids
    pub known : get id s.by_id ≡ some ch
    pub own : Memᴰ e.program (programs_of normalize s ch)
    pub named : e.channel_id ≡ ch.id
    pub ends : from < e.program.stop
    pub begins : e.program.start < to

  targets_one :
      (id : Str) {o : Option Channel}
      → get id s.by_id ≡ o
      → targets normalize s (id ∷ []) ≡ (elim o [ none ↦ [] | some ch ↦ ch ∷ [] ])
  unfolding targets
  targets_one id g =
      ap (λ (o : Option Channel). elim o as (λ _. List Channel) [ none ↦ [] | some ch ↦ ch ∷ [] ]) g

  programs_one :
      (id : Str) (from to : Time) (chs : List Channel)
      → targets normalize s (id ∷ []) ≡ chs
      → programs normalize s (id ∷ []) from to
        ≡ sort_by (λ (e : GuideEntry). e.program.start) (entries normalize s from to chs) []
  unfolding programs
  programs_one id from to chs e =
      ap
        (λ (l : List Channel).
          sort_by (λ (x : GuideEntry). x.program.start) (entries normalize s from to l) [])
        e

  current_absent :
      (id : Str) (at : Time) → get id s.by_id ≡ none → current_program normalize s id at ≡ none
  unfolding current_program
  current_absent id at g = ground (arith, g)

  current_known :
      (id : Str) (at : Time) (ch : Channel)
      → get id s.by_id ≡ some ch
      → (current_program normalize s id at ≡ none)
        ↔ (find (airs at) (programs_of normalize s ch) ≡ none)
  unfolding current_program
  current_known id at ch g = elim (Option-cases (find (airs at) (programs_of normalize s ch))) [
    | inl n ↦ (ground (arith, g, n))
    | inr (p, n) ↦ (ground (arith, g, n))
  ]

  entries_one :
      (from to : Time) (ch : Channel)
      → entries normalize s from to (ch ∷ [])
        ≡ map (in_entry ch) (keep (overlaps from to) (programs_of normalize s ch)) ++ []
  unfolding entries
  entries_one from to ch = refl

  none_listed :
      (at : Time)
      → sort_by (λ (x : GuideEntry). x.program.start) (entries normalize s at (at + 1) []) [] ≡ []
  unfolding entries
  none_listed at = (sort_by_empty (λ (x : GuideEntry). x.program.start) []).1 refl

  -- There is no current programme exactly if the guide lists none for the instant.
  pub current_program-programs :
      (id : Str) (at : Time)
      → (current_program normalize s id at ≡ none)
        ↔ (programs normalize s (id ∷ []) at (at + 1) ≡ [])
  current_program-programs id at = elim (Option-cases (get id s.by_id)) [
    | inl g ↦ (
      (λ e. programs_one id at (at + 1) [] (targets_one id g) ∙ none_listed at),
      λ e. current_absent id at g,
    )
    | inr (ch, g) ↦
        let ps = programs_of normalize s ch in
        let listed =
          programs_one id at (at + 1) (ch ∷ []) (targets_one id g)
          ∙ ap (λ (l : List GuideEntry). sort_by (λ (x : GuideEntry). x.program.start) l [])
              (entries_one at (at + 1) ch) in
        let same = find-keep (airs at) (overlaps at (at + 1)) ps (airs-overlaps at) in
        let known = current_known id at ch g in
        let es = map (in_entry ch) (keep (overlaps at (at + 1)) ps) ++ [] in
        let sorted = sort_by_empty (λ (x : GuideEntry). x.program.start) es in
        let mapped = map_empty ch (keep (overlaps at (at + 1)) ps) in
        (
          (λ e. listed ∙ sorted.1 (mapped.1 (same.0 (known.0 e)))),
          λ e. known.1 (same.1 (mapped.0 (sorted.0 (sym listed ∙ e)))),
        )
  ]
