-- ===== src/Dvr/Round.antt =====
-- One round of the scheduler of internal/dvr/recorder.go, over all the recordings of the store.
use cubozoa.Prelude.{
  ◌≡◌, refl, ◌∙◌, inl, inr, true, false, some, List, [], ◌∷◌, Str, str_eq, str_eq_iff, str_eq_refl,
  leb, keep, arith, Bool-cases, All, All-map, subst,
}
use cubozoa.Prelude.Map.{Map, get, values, IsMap}
use cubozoa.Store.Models.{
  Time, Recording, RecStatus, scheduled, recording, completed, failed, cancelled,
}
use cubozoa.Store.Playback.{list_recordings}
use cubozoa.Dvr.Recorder.{Env, Recorder, maybe_start, has_status, tick_one, tick_all, tick}
use cubozoa.Dvr.Lifecycle.{
  recs, Moves, misses, stays, IsPending, Did, Did-none, Did-save, maybe_start-Did,
}

-- A recording of the round's list: it is stored, and it is scheduled.
abbrev Listed : Recorder → Recording → Type 0
Listed r rec = (get rec.id (recs r) ≡ some rec) × (rec.status ≡ scheduled)

-- No identity stands twice in a list.
abbrev Apart : List Recording → Type 0
Apart [] = Unit
Apart (rec ∷ rs) = All (λ (x : Recording). str_eq rec.id x.id ≡ false) rs × Apart rs

IsPending-of_scheduled : (a : RecStatus) → a ≡ scheduled → IsPending a
IsPending-of_scheduled scheduled e = tt
IsPending-of_scheduled recording e = tt
IsPending-of_scheduled completed e = absurd (cc)
IsPending-of_scheduled failed e = absurd (cc)
IsPending-of_scheduled cancelled e = absurd (cc)

miss-Moves : (a : RecStatus) → a ≡ scheduled → Moves a failed
miss-Moves scheduled e = misses
miss-Moves recording e = absurd (cc)
miss-Moves completed e = absurd (cc)
miss-Moves failed e = absurd (cc)
miss-Moves cancelled e = absurd (cc)

apart_from :
    (x : Recording) (j : Str) (rs : List Recording)
    → x.id ≡ j
    → All (λ (y : Recording). str_eq x.id y.id ≡ false) rs
    → All (λ (y : Recording). str_eq y.id j ≡ false) rs
apart_from x j rs e = All-map (λ y h. ground (arith, str_eq_iff x.id y.id, str_eq_iff y.id j)) rs

scheduled_of_test : (v : Recording) → has_status scheduled v ≡ true → v.status ≡ scheduled
scheduled_of_test v e = ground arith

-- The scheduled recordings of a map, as `filter` lists them.
listed_of_map :
    (m : Map Recording)
    → IsMap m
    → ((k : Str) (v : Recording) → get k m ≡ some v → v.id ≡ k)
    → All
        (λ (v : Recording). (get v.id m ≡ some v) × (v.status ≡ scheduled))
        (keep (has_status scheduled) (values m))
      × Apart (keep (has_status scheduled) (values m))
unfolding get
listed_of_map [] h f = (tt, tt)
listed_of_map ((k, v) ∷ m) (n, h) f =
    let inner =
      λ (j : Str) (w : Recording) (g : get j m ≡ some w). f j w (ground (arith, str_eq_iff k j)) in
    let (l, a) = listed_of_map m h inner in
    let id_v : v.id ≡ k = f k v (ground (arith, str_eq_refl k)) in
    let rest = keep (has_status scheduled) (values m) in
    let l' : All (λ (w : Recording). (get w.id ((k, v) ∷ m) ≡ some w) × (w.status ≡ scheduled))
        rest =
      All-map (λ w p. (ground (arith, str_eq_iff k w.id), p.1)) rest l in
    let a' : All (λ (w : Recording). str_eq v.id w.id ≡ false) rest =
      All-map (λ w p. ground (arith, str_eq_iff v.id w.id)) rest l in
    elim (Bool-cases (has_status scheduled v)) [
      | inl e ↦ rw e (((ground (arith, str_eq_iff k v.id), scheduled_of_test v e), l'), (a', a))
      | inr e ↦ rw e (l', a)
    ]

module _ (env : Env) (now : Time) where
  tick_one-Did :
      (rec : Recording) (r : Recorder)
      → Listed r rec
      → (new : Recording) × Did rec new r (tick_one env now rec r)
  unfolding tick_one
  tick_one-Did rec r (g, p) = elim (Bool-cases (leb rec.end_at now)) [
    | inl e ↦ (
      record rec { status = failed },
      rw e (
          Did-save env now rec (record rec { status = failed }) r r g refl refl
            (miss-Moves rec.status p)),
    )
    | inr e ↦ elim (Bool-cases (leb rec.start_at now)) [
      | inl f ↦ (
        (maybe_start env now rec r).0,
        rw (e, f) (maybe_start-Did env now rec r g (IsPending-of_scheduled rec.status p)),
      )
      | inr f ↦ (rec, rw (e, f) (Did-none env now rec r g))
    ]
  ]

  still-Listed :
      (rec new : Recording) (r r' : Recorder) (rs : List Recording)
      → Did rec new r r'
      → All (λ (x : Recording). str_eq rec.id x.id ≡ false) rs
      → All (Listed r) rs
      → All (Listed r') rs
  still-Listed rec new r r' [] d o l = tt
  still-Listed rec new r r' (x ∷ rs) d (h, o) ((g, p), l) =
      ((d.found x.id ∙ (rw h g), p), still-Listed rec new r r' rs d o l)

  -- Entries whose identities differ from `j` leave `j` alone.
  tick_all-other :
      (rs : List Recording) (r : Recorder) (j : Str)
      → All (Listed r) rs
      → Apart rs
      → All (λ (x : Recording). str_eq x.id j ≡ false) rs
      → get j (recs (tick_all env now rs r)) ≡ get j (recs r)
  unfolding tick_all
  tick_all-other [] r j l a o = refl
  tick_all-other (x ∷ rs) r j (lx, l) (ax, a) (ox, o) =
      let (new, d) = tick_one-Did x r lx in
      tick_all-other rs (tick_one env now x r) j (still-Listed x new r _ rs d ax l) a o
      ∙ d.found j
      ∙ (rw ox)

  tick_all-Moves :
      (rs : List Recording) (r : Recorder) (j : Str) (rec : Recording)
      → All (Listed r) rs
      → Apart rs
      → get j (recs r) ≡ some rec
      → (new : Recording) × (get j (recs (tick_all env now rs r)) ≡ some new)
        × Moves rec.status new.status
  unfolding tick_all
  tick_all-Moves [] r j rec l a g = (rec, g, stays)
  tick_all-Moves (x ∷ rs) r j rec (lx, l) (ax, a) g =
      let (new, d) = tick_one-Did x r lx in
      let r₁ = tick_one env now x r in
      let l₁ = still-Listed x new r r₁ rs d ax l in
      elim (Bool-cases (str_eq x.id j)) [
        | inl e ↦
            let here : x.id ≡ j = (str_eq_iff x.id j).0 e in
            let same : x ≡ rec = cc (lx.0, here, g) in
            (
              new,
              tick_all-other rs r₁ j l₁ a (apart_from x j rs here ax) ∙ d.found j ∙ (rw e),
              subst (λ (y : Recording). Moves y.status new.status) same d.step,
            )
        | inr e ↦ tick_all-Moves rs r₁ j rec l₁ a (d.found j ∙ (rw e g))
      ]

  -- A round of the scheduler moves every recording by one step of its life at most: a scheduled one
  -- begins, fails or stays, and no other status changes. The store files each recording under its own
  -- identity.
  pub tick-Moves :
      (r : Recorder) (j : Str) (rec : Recording)
      → IsMap (recs r)
      → ((k : Str) (v : Recording) → get k (recs r) ≡ some v → v.id ≡ k)
      → get j (recs r) ≡ some rec
      → (new : Recording) × (get j (recs (tick env now r)) ≡ some new) × Moves rec.status new.status
  unfolding tick list_recordings
  tick-Moves r j rec m f g =
      let (l, a) = listed_of_map (recs r) m f in
      tick_all-Moves (keep (has_status scheduled) (values (recs r))) r j rec l a g
