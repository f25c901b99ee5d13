-- ===== src/Store/Preserve.antt =====
-- The invariant of internal/store/jsonstore.go over the mutations and over a history of them.
use cubozoa.Prelude.{◌≡◌, refl, inl, inr, List, [], ◌∷◌, Str, str_eq, any, Bool-cases, Option-cases}
use cubozoa.Prelude.Map
use cubozoa.Prelude.Map.{get, values, any-get}
use cubozoa.Store.Models.{User, Library}
use cubozoa.Store.State.{Mem, JsonStore, commit, flush_locked, empty_mem}
use cubozoa.Store.Accounts
use cubozoa.Store.Catalog
use cubozoa.Store.Playback
use cubozoa.Store.Accounts.{equal_fold}
use cubozoa.Store.Exec.{
  Mutation, exec, run, create_user, update_user, create_library, delete_library,
  replace_library_items, delete_session, touch_session, create_session, upsert_user_item_data,
  create_recording, update_recording, delete_recording, create_series_timer, delete_series_timer,
  close,
}
use cubozoa.Store.Invariant.{
  IsValid, Allowed, put_new-UsersValid, put_same-UsersValid, create_library-CatalogValid,
  remove_library-CatalogValid, replace-CatalogValid,
}

module _ (fold : Str → Str) where
  commit-IsValid : (m : Mem) (s : JsonStore) → IsValid fold m → IsValid fold (commit m s).1.mem
  unfolding flush_locked
  commit-IsValid m s h = elim (Bool-cases (s.write_ok s.flushes)) [
    | inl e ↦ rw e h
    | inr e ↦ rw e h
  ]

  -- A mutation of the other maps.
  other-IsValid :
      (m : Mem) (s : JsonStore)
      → m.users ≡ s.mem.users
      → m.libraries ≡ s.mem.libraries
      → m.items ≡ s.mem.items
      → IsValid fold s.mem
      → IsValid fold (commit m s).1.mem
  other-IsValid m s u l i h =
      commit-IsValid m s (record { users = rw u h.users; catalog = rw l (rw i h.catalog) })

  -- Every mutation keeps the invariant, failing or not, if an update leaves the user's name.
  pub exec-IsValid :
      (op : Mutation) (s : JsonStore)
      → Allowed fold op s.mem
      → IsValid fold s.mem
      → IsValid fold (exec fold op s).1.mem
  unfolding exec
  exec-IsValid (create_user u) s a h =
      elim (Bool-cases (any (λ (v : User). equal_fold fold v.name u.name) (values s.mem.users))) [
        | inl e ↦ rw e h
        | inr e ↦ rw e (
            commit-IsValid _ s (record {
              users =
                  put_new-UsersValid fold u s.mem.users (λ k v g. any-get _ k v s.mem.users e g)
                    h.users;
              catalog = h.catalog;
            }))
      ]
  exec-IsValid (update_user u) s a h = elim (Option-cases (Map.get u.id s.mem.users)) [
    | inl e ↦ rw (e, Accounts.update_user) h
    | inr (v, e) ↦
        rw (e, Accounts.update_user)
          (commit-IsValid _ s (record {
            users = put_same-UsersValid fold u v s.mem.users e (a v e) h.users;
            catalog = h.catalog;
          }))
  ]
  exec-IsValid (create_session sess) s a h = other-IsValid _ s refl refl refl h
  exec-IsValid (delete_session id) s a h = elim (Option-cases (Map.get id s.mem.sessions)) [
    | inl e ↦ rw (e, Accounts.delete_session) h
    | inr (v, e) ↦ rw (e, Accounts.delete_session) (other-IsValid _ s refl refl refl h)
  ]
  exec-IsValid (touch_session now id) s a h = elim (Option-cases (Map.get id s.mem.sessions)) [
    | inl e ↦ rw (e, Accounts.touch_session) h
    | inr (v, e) ↦ rw (e, Accounts.touch_session) (other-IsValid _ s refl refl refl h)
  ]
  exec-IsValid (create_library l) s a h =
      elim (Bool-cases (any (λ (x : Library). str_eq x.path l.path) (values s.mem.libraries))) [
        | inl e ↦ rw e h
        | inr e ↦ rw e (
            commit-IsValid _ s (record {
              users = h.users;
              catalog =
                  create_library-CatalogValid l s.mem.libraries s.mem.items
                    (λ k x g. any-get _ k x s.mem.libraries e g) h.catalog;
            }))
      ]
  exec-IsValid (delete_library id) s a h = elim (Option-cases (Map.get id s.mem.libraries)) [
    | inl e ↦ rw (e, Catalog.delete_library) h
    | inr (v, e) ↦
        rw (e, Catalog.delete_library)
          (commit-IsValid _ s (record {
            users = h.users;
            catalog = remove_library-CatalogValid id s.mem.libraries s.mem.items h.catalog;
          }))
  ]
  exec-IsValid (replace_library_items now id items) s a h =
      elim (Option-cases (Map.get id s.mem.libraries)) [
        | inl e ↦ rw (e, Catalog.replace_library_items) h
        | inr (lib, e) ↦
            rw (e, Catalog.replace_library_items)
              (commit-IsValid _ s (record {
                users = h.users;
                catalog =
                    replace-CatalogValid now id lib items s.mem.libraries s.mem.items e h.catalog;
              }))
      ]
  exec-IsValid (upsert_user_item_data d) s a h = other-IsValid _ s refl refl refl h
  exec-IsValid (create_recording rec) s a h = other-IsValid _ s refl refl refl h
  exec-IsValid (update_recording rec) s a h =
      elim (Option-cases (Map.get rec.id s.mem.recordings)) [
        | inl e ↦ rw (e, Playback.update_recording) h
        | inr (v, e) ↦ rw (e, Playback.update_recording) (other-IsValid _ s refl refl refl h)
      ]
  exec-IsValid (delete_recording id) s a h = elim (Option-cases (Map.get id s.mem.recordings)) [
    | inl e ↦ rw (e, Playback.delete_recording) h
    | inr (v, e) ↦ rw (e, Playback.delete_recording) (other-IsValid _ s refl refl refl h)
  ]
  exec-IsValid (create_series_timer st) s a h = other-IsValid _ s refl refl refl h
  exec-IsValid (delete_series_timer id) s a h =
      elim (Option-cases (Map.get id s.mem.series_timers)) [
        | inl e ↦ rw (e, Playback.delete_series_timer) h
        | inr (v, e) ↦ rw (e, Playback.delete_series_timer) (other-IsValid _ s refl refl refl h)
      ]
  exec-IsValid close s a h = commit-IsValid s.mem s h

  -- A history each of whose mutations is allowed when it runs.
  abbrev pub AllAllowed : List Mutation → JsonStore → Type 0
  AllAllowed [] s = Unit
  AllAllowed (op ∷ ops) s = Allowed fold op s.mem × AllAllowed ops (exec fold op s).1

  -- From a valid store every history leads to a valid one: names stay distinct up to case, library
  -- paths stay distinct, and no item outlives its library.
  pub run-IsValid :
      (ops : List Mutation) (s : JsonStore)
      → AllAllowed ops s
      → IsValid fold s.mem
      → IsValid fold (run fold ops s).mem
  unfolding run
  run-IsValid [] s a h = h
  run-IsValid (op ∷ ops) s a h = run-IsValid ops _ a.1 (exec-IsValid op s a.0 h)

pub empty-IsValid : (fold : Str → Str) → IsValid fold empty_mem
unfolding get
empty-IsValid fold = record {
  users = record {
    is_map = tt;
    filed = λ k u g. absurd (cc);
    distinct = λ j k u v a b c. absurd (cc);
  };
  catalog = record {
    libraries_map = tt;
    items_map = tt;
    filed = λ k u g. absurd (cc);
    paths = λ j k l m a b c. absurd (cc);
    homed = λ k it g. absurd (cc);
  };
}
