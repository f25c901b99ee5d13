-- ===== src/Media/Containment.antt =====
-- The containment of the files that internal/media/service.go serves.
use cubozoa.Prelude.{
  ℕ, ◌≡◌, ap, ◌∙◌, subst, inl, inr, true, false, Option, none, some, List, Str, Result, ok, err,
  arith, Bool-cases, Option-cases, Result-cases,
}
use cubozoa.Prelude.Map.{get}
use cubozoa.Store.Models.{Library, SubtitleTrack, MediaItem}
use cubozoa.Store.State.{JsonStore, StoreError, not_found}
use cubozoa.Store.Catalog.{get_library, get_item}
use cubozoa.Store.Invariant.{IsValid}
use cubozoa.Store.Preserve.{AllAllowed, run-IsValid}
use cubozoa.Store.Exec.{Mutation, run}
use cubozoa.Media.Files.{Stream, within_root, rejected, subtitle_at, item_stream, item_subtitle}

abbrev answer : {V : Type 0} → Option V → Result StoreError V
answer none = err not_found
answer (some x) = ok x

some_of_ok : {V : Type 0} (o : Option V) (x : V) → answer o ≡ ok x → o ≡ some x
some_of_ok o x h = ground arith

-- In a valid store an item that is found has its library.
library_of_item :
    (fold : Str → Str) (id : Str) (it : MediaItem) (s : JsonStore)
    → IsValid fold s.mem
    → get_item id s ≡ ok it
    → (lib : Library) × (get_library it.library_id s ≡ ok lib)
unfolding get_item get_library
library_of_item fold id it s h g =
    let found : get id s.mem.items ≡ some it = some_of_ok (get id s.mem.items) it g in
    let homed = h.catalog.homed id it found in
    elim (Option-cases (get it.library_id s.mem.libraries)) [
      | inl e ↦ absurd (ground (arith, homed, e))
      | inr (lib, e) ↦ (lib, ap answer e)
    ]

module _ (rel : Str → Str → Option Str) (content_type fold : Str → Str) where
  contained :
      (library_id path : Str) (s : JsonStore) (lib : Library)
      → get_library library_id s ≡ ok lib
      → rejected rel library_id path s ≡ false
      → within_root rel lib.path path ≡ true
  unfolding rejected
  contained library_id path s lib g h = elim (Bool-cases (within_root rel lib.path path)) [
    | inl w ↦ w
    | inr w ↦ absurd (ground (arith, g, w, h))
  ]

  pub stream_source :
      (id : Str) (s : JsonStore) {st : Stream}
      → item_stream rel content_type id s ≡ ok st
      → (it : MediaItem) × (get_item id s ≡ ok it)
        × (rejected rel it.library_id it.path s ≡ false)
        × (st.path ≡ it.path)
  unfolding item_stream
  stream_source id s {st} h = elim (Result-cases (get_item id s)) [
    | inl (e, g) ↦ absurd (ground (arith, g))
    | inr (it, g) ↦ elim (Bool-cases (rejected rel it.library_id it.path s)) [
      | inl r ↦ absurd (ground (arith, g, r))
      | inr r ↦ (it, g, r, ground (arith, g, r))
    ]
  ]

  -- Whatever mutations have run on a valid store, each of which leaves user names alone, the file that a
  -- stream request is given lies within the root of the library of the requested item: the code passes a
  -- file whose library is not found, and no item outlives its library.
  pub item_stream_contained :
      (ops : List Mutation) (start : JsonStore) (id : Str) {st : Stream}
      → AllAllowed fold ops start
      → IsValid fold start.mem
      → item_stream rel content_type id (run fold ops start) ≡ ok st
      → (it : MediaItem) × (lib : Library) × (get_item id (run fold ops start) ≡ ok it)
        × (get_library it.library_id (run fold ops start) ≡ ok lib)
        × (within_root rel lib.path st.path ≡ true)
  item_stream_contained ops start id {st} a h served =
      let s = run fold ops start in
      let (it, g, r, same) = stream_source id s served in
      let (lib, l) = library_of_item fold id it s (run-IsValid fold ops start a h) g in
      (
        it,
        lib,
        g,
        l,
        ap (within_root rel lib.path) same ∙ contained it.library_id it.path s lib l r,
      )

  subtitle_source :
      (id : Str) (index : ℕ) (s : JsonStore) {tr : SubtitleTrack}
      → item_subtitle rel id index s ≡ ok tr
      → (it : MediaItem) × (get_item id s ≡ ok it) × (rejected rel it.library_id tr.path s ≡ false)
  unfolding item_subtitle
  subtitle_source id index s {tr} h = elim (Result-cases (get_item id s)) [
    | inl (e, g) ↦ absurd (ground (arith, g))
    | inr (it, g) ↦ elim (Option-cases (subtitle_at index it.subtitles)) [
      | inl n ↦ absurd (ground (arith, g, n))
      | inr (t, n) ↦ elim (Bool-cases (rejected rel it.library_id t.path s)) [
        | inl r ↦ absurd (ground (arith, g, n, r))
        | inr r ↦
            let same : t ≡ tr = ground (arith, g, n, r) in
            (
              it,
              g,
              subst (λ (x : SubtitleTrack). rejected rel it.library_id x.path s ≡ false) same r,
            )
      ]
    ]
  ]

  -- Whatever mutations have run on a valid store, each of which leaves user names alone, a subtitle file
  -- that is served lies within the root of the library of the requested item.
  pub item_subtitle_contained :
      (ops : List Mutation) (start : JsonStore) (id : Str) (index : ℕ) {tr : SubtitleTrack}
      → AllAllowed fold ops start
      → IsValid fold start.mem
      → item_subtitle rel id index (run fold ops start) ≡ ok tr
      → (it : MediaItem) × (lib : Library) × (get_item id (run fold ops start) ≡ ok it)
        × (get_library it.library_id (run fold ops start) ≡ ok lib)
        × (within_root rel lib.path tr.path ≡ true)
  item_subtitle_contained ops start id index {tr} a h served =
      let s = run fold ops start in
      let (it, g, r) = subtitle_source id index s served in
      let (lib, l) = library_of_item fold id it s (run-IsValid fold ops start a h) g in
      (it, lib, g, l, contained it.library_id tr.path s lib l r)
