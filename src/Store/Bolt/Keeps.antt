-- ===== src/Store/Bolt/Keeps.antt =====
-- The indexes of internal/store/boltstore.go over its mutations and their histories.
use cubozoa.Prelude.{
  ◌≡◌, refl, ap, ◌∙◌, Bool, true, false, List, [], ◌∷◌, none, some, Option, Str, str_eq, str_eq_iff,
  str_eq_refl, arith, if◌then◌else◌, Bool-cases, inl, inr, Result, ok, err, subst, Result-cases,
}
use cubozoa.Store.Models.{Session, MediaItem}
use cubozoa.Store.State.{StoreError}
use cubozoa.Store.Reads.{Lacks0}
use cubozoa.Store.Exec.{
  Mutation, create_user, update_user, create_library, delete_library, replace_library_items,
  delete_session, touch_session, create_session, upsert_user_item_data, create_recording,
  update_recording, delete_recording, create_series_timer, delete_series_timer, close,
}
use cubozoa.Store.Bolt.Engine.{Engine}
use cubozoa.Store.Bolt.State.{Buckets, BoltStore, update, empty_buckets, idx_key}
use cubozoa.Store.Bolt.Accounts
use cubozoa.Store.Bolt.Catalog
use cubozoa.Store.Bolt.Playback
use cubozoa.Store.Bolt.Catalog.{
  delete_library_items, delete_each, insert_each, insert_item, indexed_ids,
}
use cubozoa.Store.Bolt.Exec.{exec, run}
use cubozoa.Store.Bolt.Index.{Indexed, points-eq-some, has_hash}
use cubozoa.Store.Bolt.Renew.{Renews, delete_library_items-Indexed, replace-Indexed}

-- What the callers owe to the indexes.
abbrev pub Permits : (E : Engine) → Mutation → Buckets E → Type 0
Permits E (create_session sess) db =
    (E.get sess.id db.sessions ≡ none) × (E.get sess.token_hash db.idx_session_token ≡ none)
Permits E (delete_library id) db = Lacks0 id
Permits E (replace_library_items now id items) db = Lacks0 id × Renews E id db items
Permits E _ db = Unit

module _ (E : Engine) where
  abbrev Kept : (Buckets E → Type 0) → Result StoreError (Buckets E) → Type 0
  Kept P (err e) = Unit
  Kept P (ok db) = P db

  -- A transaction keeps what its body keeps, whether it goes through or not.
  update_keeps :
      (P : Buckets E → Type 0) (body : Buckets E → Result StoreError (Buckets E)) (s : BoltStore E)
      → Kept P (body s.db)
      → P s.db
      → P (update E body s).1.db
  unfolding update
  update_keeps P body s k h = elim (Result-cases (body s.db)) [
    | inl (e, f) ↦ rw (f, update) h
    | inr (db, f) ↦
        let kept : P db = subst (Kept P) f k in
        elim (Bool-cases (s.commit_ok s.updates)) [
          | inl t ↦ rw (f, update) (rw t kept)
          | inr t ↦ rw (f, update) (rw t h)
        ]
  ]

  tokens-create_session :
      (sess : Session) (db : Buckets E)
      → E.get sess.id db.sessions ≡ none
      → E.get sess.token_hash db.idx_session_token ≡ none
      → Indexed E db
      → Indexed E (record db {
        sessions = E.put sess.id sess db.sessions;
        idx_session_token = E.put sess.token_hash sess.id db.idx_session_token;
      })
  tokens-create_session sess db a b x = record {
    tokens = λ h id. ground (
      arith,
      E.get-put sess.id id sess db.sessions,
      E.get-put sess.token_hash h sess.id db.idx_session_token,
      str_eq_iff sess.id id,
      str_eq_iff sess.token_hash h,
      x.tokens h id,
    );
    items = x.items;
  }

  tokens-delete_session :
      (id : Str) (sess : Session) (db : Buckets E)
      → E.get id db.sessions ≡ some sess
      → Indexed E db
      → Indexed E (record db {
        sessions = E.delete id db.sessions;
        idx_session_token = E.delete sess.token_hash db.idx_session_token;
      })
  tokens-delete_session id sess db g x =
      let own : E.get sess.token_hash db.idx_session_token ≡ some id =
        points-eq-some id _
          (x.tokens sess.token_hash id ∙ ap (has_hash sess.token_hash) g ∙ str_eq_refl _) in
      record {
        tokens = λ h j. elim (Bool-cases (str_eq sess.token_hash h)) [
          | inl e ↦
              let at_h : E.get h db.idx_session_token ≡ some id =
                rw (← (str_eq_iff sess.token_hash h).0 e) own in
              ground (
                arith,
                E.get-delete id j db.sessions,
                E.get-delete sess.token_hash h db.idx_session_token,
                x.tokens h j,
              )
          | inr e ↦ ground (
            arith,
            E.get-delete id j db.sessions,
            E.get-delete sess.token_hash h db.idx_session_token,
            str_eq_iff id j,
            x.tokens h j,
          )
        ];
        items = x.items;
      }

  tokens-touch_session :
      (id : Str) (old sess : Session) (db : Buckets E)
      → E.get id db.sessions ≡ some old
      → sess.token_hash ≡ old.token_hash
      → Indexed E db
      → Indexed E (record db { sessions = E.put id sess db.sessions })
  tokens-touch_session id old sess db g same x = record {
    tokens = λ h j. ground (arith, E.get-put id j sess db.sessions, str_eq_iff id j, x.tokens h j);
    items = x.items;
  }

  Kept-found :
      {A : Type 0} (P : Buckets E → Type 0) (e : StoreError) (o : Option A) (f : A → Buckets E)
      → ((v : A) → o ≡ some v → P (f v))
      → Kept P (elim o [ none ↦ err e | some v ↦ ok (f v) ])
  Kept-found P e none f h = tt
  Kept-found P e (some v) f h = h v refl

  Kept-unless :
      (P : Buckets E → Type 0) (e : StoreError) (b : Bool) (db : Buckets E)
      → P db
      → Kept P (if b then err e else ok db)
  Kept-unless P e true db h = tt
  Kept-unless P e false db h = h

  -- Every mutation keeps the indexes, whether its transaction goes through or not.
  pub exec-Indexed :
      (fold : Str → Str) (op : Mutation) (s : BoltStore E)
      → Permits E op s.db
      → Indexed E s.db
      → Indexed E (exec E fold op s).1.db
  unfolding exec
  exec-Indexed fold (create_user u) s a x =
      update_keeps (Indexed E) (Accounts.create_user_tx E fold u) s
        (Kept-unless (Indexed E) _ _ _ x) x
  exec-Indexed fold (update_user u) s a x =
      update_keeps (Indexed E) (Accounts.update_user_tx E u) s
        (Kept-found (Indexed E) _ _ _ (λ v e. x)) x
  exec-Indexed fold (create_session sess) s (a, b) x =
      update_keeps (Indexed E) (Accounts.create_session_tx E sess) s
        (tokens-create_session sess s.db a b x) x
  exec-Indexed fold (delete_session id) s a x =
      update_keeps (Indexed E) (Accounts.delete_session_tx E id) s
        (Kept-found (Indexed E) _ _ _ (λ sess e. tokens-delete_session id sess s.db e x)) x
  exec-Indexed fold (touch_session now id) s a x =
      update_keeps (Indexed E) (Accounts.touch_session_tx E now id) s
        (Kept-found (Indexed E) _ _ _ (λ sess e. tokens-touch_session id sess _ s.db e refl x)) x
  exec-Indexed fold (create_library l) s a x =
      update_keeps (Indexed E) (Catalog.create_library_tx E l) s (Kept-unless (Indexed E) _ _ _ x) x
  exec-Indexed fold (delete_library id) s a x =
      update_keeps (Indexed E) (Catalog.delete_library_tx E id) s
        (Kept-found (Indexed E) _ _ _ (λ l e. delete_library_items-Indexed E id _ a x)) x
  exec-Indexed fold (replace_library_items now id items) s (a, r) x =
      update_keeps (Indexed E) (Catalog.replace_library_items_tx E now id items) s
        (Kept-found (Indexed E) _ _ _ (λ l e. replace-Indexed E id items s.db a r x)) x
  exec-Indexed fold (upsert_user_item_data d) s a x =
      update_keeps (Indexed E) (Playback.upsert_user_item_data_tx E d) s x x
  exec-Indexed fold (create_recording rec) s a x =
      update_keeps (Indexed E) (Playback.create_recording_tx E rec) s x x
  exec-Indexed fold (update_recording rec) s a x =
      update_keeps (Indexed E) (Playback.update_recording_tx E rec) s
        (Kept-found (Indexed E) _ _ _ (λ v e. x)) x
  exec-Indexed fold (delete_recording id) s a x =
      update_keeps (Indexed E) (Playback.delete_recording_tx E id) s
        (Kept-found (Indexed E) _ _ _ (λ v e. x)) x
  exec-Indexed fold (create_series_timer st) s a x =
      update_keeps (Indexed E) (Playback.create_series_timer_tx E st) s x x
  exec-Indexed fold (delete_series_timer id) s a x =
      update_keeps (Indexed E) (Playback.delete_series_timer_tx E id) s
        (Kept-found (Indexed E) _ _ _ (λ v e. x)) x
  exec-Indexed fold close s a x = x

  -- A fresh database is indexed.
  pub empty-Indexed : Indexed E (empty_buckets E)
  empty-Indexed = record {
    tokens = λ h id. ground (arith, E.get-empty {V = Str} h, E.get-empty {V = Session} id);
    items = (
      λ id. rw (E.get-empty {V = MediaItem} id) tt,
      λ l id hl.
          ground (arith, E.get-empty {V = Unit {0}} (idx_key l id), E.get-empty {V = MediaItem} id),
      λ p id hp.
          ground (arith, E.get-empty {V = Unit {0}} (idx_key p id), E.get-empty {V = MediaItem} id),
    );
  }

  abbrev pub AllPermitted : (Str → Str) → List Mutation → BoltStore E → Type 0
  AllPermitted fold [] s = Unit
  AllPermitted fold (op ∷ ops) s = Permits E op s.db × AllPermitted fold ops (exec E fold op s).1

  -- Whatever mutations run and whichever transactions fail, the indexes stay right.
  pub run-Indexed :
      (fold : Str → Str) (ops : List Mutation) (s : BoltStore E)
      → AllPermitted fold ops s
      → Indexed E s.db
      → Indexed E (run E fold ops s).db
  unfolding run
  run-Indexed fold [] s a x = x
  run-Indexed fold (op ∷ ops) s (a, rest) x =
      run-Indexed fold ops _ rest (exec-Indexed fold op s a x)
