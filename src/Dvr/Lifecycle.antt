-- ===== src/Dvr/Lifecycle.antt =====
-- How the recorder of internal/dvr/recorder.go moves a recording from status to status.
use cubozoa.Prelude.{
  ◌≡◌, refl, ap, ◌∙◌, inl, inr, ◌||◌, some, ◌++◌, Str, str_eq, str_eq_iff, str_eq_refl, ltb, leb,
  if◌then◌else◌, arith, Bool-cases, Option-cases, codes,
}
use cubozoa.Prelude.Map
use cubozoa.Prelude.Map.{Map, get, get-put, get-put_self, has, values, IsMap}
use cubozoa.Store.Models.{
  Time, Recording, RecStatus, scheduled, recording, completed, failed, cancelled,
}
use cubozoa.Store.State.{Mem}
use cubozoa.Store.Playback.{update_recording}
use cubozoa.Store.Reads.{mem_of_commit}
use cubozoa.Dvr.Recorder.{Env, Recorder, save, maybe_start}

abbrev pub recs : Recorder → Map Recording
recs r = r.store.mem.recordings

-- The steps of a recording's life.
pub data Moves : RecStatus → RecStatus → Type 0 where
  stays : {a : RecStatus} → Moves a a
  begins : Moves scheduled recording
  misses : Moves scheduled failed
  drops : Moves scheduled cancelled
  ends : Moves recording completed
  breaks : Moves recording failed

-- A recording that may be started: what the scheduler and a restart pass on.
abbrev pub IsPending : RecStatus → Type 0
IsPending scheduled = Unit
IsPending recording = Unit
IsPending _ = ⊥

pub get-save :
    (rec old : Recording) (j : Str) (r : Recorder)
    → get rec.id (recs r) ≡ some old
    → get j (recs (save rec r)) ≡ (if str_eq rec.id j then some rec else get j (recs r))
unfolding update_recording
get-save rec old j r g =
    rw (g, update_recording)
      (ap (λ (m : Mem). get j m.recordings) (mem_of_commit _ r.store)
        ∙ get-put rec.id j rec (recs r))

-- What a call did: the recording `rec` is `new` now, by one step of its life, and no other moved.
pub record Did (rec new : Recording) (r r' : Recorder) : Type 0 where
  pub same_id : new.id ≡ rec.id
  pub step : Moves rec.status new.status
  pub found : (j : Str) → get j (recs r') ≡ (if str_eq rec.id j then some new else get j (recs r))

module _ (env : Env) (now : Time) where
  -- Nothing done.
  pub Did-none : (rec : Recording) (r : Recorder) → get rec.id (recs r) ≡ some rec → Did rec rec r r
  Did-none rec r g = record {
    same_id = refl;
    step = stays;
    found = λ j. ground (arith, g, str_eq_iff rec.id j);
  }

  pub Did-save :
      (rec new : Recording) (r r₁ : Recorder)
      → get rec.id (recs r) ≡ some rec
      → recs r₁ ≡ recs r
      → new.id ≡ rec.id
      → Moves rec.status new.status
      → Did rec new r (save new r₁)
  Did-save rec new r r₁ g same i m = record {
    same_id = i;
    step = m;
    found = λ j. get-save new rec j r₁ (rw (i, same) g) ∙ (rw (i, same));
  }

  Did-then :
      (rec mid new : Recording) (r r₁ r₂ : Recorder)
      → Did rec mid r r₁
      → Did mid new r₁ r₂
      → Moves rec.status new.status
      → Did rec new r r₂
  Did-then rec mid new r r₁ r₂ a b m = record {
    same_id = b.same_id ∙ a.same_id;
    step = m;
    found = λ j.
        ground (arith, b.found j, a.found j, str_eq_iff rec.id j, str_eq_iff mid.id j, a.same_id);
  }

  begin-Moves : (a : RecStatus) → IsPending a → Moves a recording
  begin-Moves scheduled p = begins
  begin-Moves recording p = stays
  begin-Moves completed p = absurd p
  begin-Moves failed p = absurd p
  begin-Moves cancelled p = absurd p

  fail-Moves : (a : RecStatus) → IsPending a → Moves a failed
  fail-Moves scheduled p = misses
  fail-Moves recording p = breaks
  fail-Moves completed p = absurd p
  fail-Moves failed p = absurd p
  fail-Moves cancelled p = absurd p

  -- Starting a stored recording that is scheduled or recording moves it one step of its life and
  -- touches no other: it begins, it fails for want of a stream or of ffmpeg, or it stays.
  pub maybe_start-Did :
      (rec : Recording) (r : Recorder)
      → get rec.id (recs r) ≡ some rec
      → IsPending rec.status
      → Did rec (maybe_start env now rec r).0 r (maybe_start env now rec r).1
  unfolding maybe_start
  maybe_start-Did rec r g p =
      let started = record rec {
        path = env.join r.dir (rec.id ++ codes ".ts");
        status = recording;
      } in
      let claimed = record r { active = Map.put rec.id tt r.active } in
      let running = save started claimed in
      let stopped = record running { active = Map.remove rec.id running.active } in
      let begun = Did-save rec started r claimed g refl refl (begin-Moves rec.status p) in
      elim (Bool-cases (ltb now rec.start_at || leb rec.end_at now)) [
        | inl e ↦ rw e (Did-none rec r g)
        | inr e ↦ elim (Bool-cases (has rec.id r.active)) [
          | inl a ↦ rw (e, a) (Did-none rec r g)
          | inr a ↦ elim (Option-cases (env.stream_url rec.channel_id)) [
            | inl u ↦
                rw (e, a, u)
                  (Did-save rec (record rec { status = failed }) r r g refl refl
                    (fail-Moves rec.status p))
            | inr (url, u) ↦ elim (Bool-cases (env.start_ok rec.id)) [
              | inl o ↦ rw (e, a, u, o) begun
              | inr o ↦
                  let broken = record started { status = failed } in
                  rw (e, a, u, o)
                    (Did-then rec started broken r running (save broken stopped) begun
                      (Did-save started broken running stopped
                        (ground (arith, begun.found rec.id, str_eq_refl rec.id)) refl refl breaks)
                      (fail-Moves rec.status p))
            ]
          ]
        ]
      ]
