-- ===== src/Store/Bolt/Reads.antt =====
-- What the reads of internal/store/boltstore.go return through the indexes.
use cubozoa.Prelude.{
  ◌≡◌, refl, ap, ◌∙◌, sym, Bool, true, none, some, Option, Str, str_eq, str_eq_refl, Option-cases,
  inl, inr, Result, ok, err, find,
}
use cubozoa.Prelude.Map.{Map, IsMap, values, find-get, find-some}
use cubozoa.Store.Models.{Session}
use cubozoa.Store.State.{JsonStore, StoreError, not_found}
use cubozoa.Store.Accounts
use cubozoa.Store.Bolt.Engine.{Engine}
use cubozoa.Store.Bolt.State.{Buckets, BoltStore}
use cubozoa.Store.Bolt.Accounts as Bolt
use cubozoa.Store.Bolt.Index.{Indexed, points, points-eq-some, has_hash}
use cubozoa.Store.Bolt.Agree.{Agrees, Same}

abbrev by_hash : Str → Session → Bool
by_hash h sess = str_eq sess.token_hash h

abbrev session_of : Option Session → Result StoreError Session
session_of none = err not_found
session_of (some sess) = ok sess

has_hash-some :
    (h : Str) (o : Option Session)
    → has_hash h o ≡ true
    → (sess : Session) × (o ≡ some sess) × (by_hash h sess ≡ true)
has_hash-some h none e = absurd (cc)
has_hash-some h (some sess) e = (sess, refl, e)

module _ (E : Engine) where
  -- The index leads to the session that a scan over all of them finds.
  find-eq-index :
      (h : Str) (db : Buckets E) (sessions : Map Session)
      → Indexed E db
      → Same E db.sessions sessions
      → IsMap sessions
      → (o : Option Str) → E.get h db.idx_session_token ≡ o
      → find (by_hash h) (values sessions) ≡ elim o [ none ↦ none | some id ↦ E.get id db.sessions ]
  find-eq-index h db sessions x same hm none e =
      elim (Option-cases (find (by_hash h) (values sessions))) [
        | inl f ↦ f
        | inr (sess, f) ↦
            let (k, g, p) = find-some (by_hash h) sess sessions hm f in
            cc (sym (x.tokens h k) ∙ ap (points k) e, ap (has_hash h) (same k ∙ g), p)
      ]
  find-eq-index h db sessions x same hm (some id) e =
      let (sess, g, p) =
        has_hash-some h _ (sym (x.tokens h id) ∙ ap (points id) e ∙ str_eq_refl id) in
      let (w, f) = find-get (by_hash h) id sess sessions (sym (same id) ∙ g) p in
      let (k, gw, pw) = find-some (by_hash h) w sessions hm f in
      let there : has_hash h (E.get k db.sessions) ≡ true = ap (has_hash h) (same k ∙ gw) ∙ pw in
      let home : some id ≡ some k = sym e ∙ points-eq-some k _ (x.tokens h k ∙ there) in
      f ∙ sym gw ∙ sym (same k) ∙ ap (λ (j : Str). E.get j db.sessions) (cc)

  -- A session is found through the index exactly as by the scan of the JSON store.
  pub get_session_by_token_hash-Agrees :
      (h : Str) (s : BoltStore E) (j : JsonStore)
      → Indexed E s.db
      → Agrees E s.db j.mem
      → IsMap j.mem.sessions
      → Bolt.get_session_by_token_hash E h s ≡ Accounts.get_session_by_token_hash h j
  unfolding Bolt.get_session_by_token_hash Accounts.get_session_by_token_hash
  get_session_by_token_hash-Agrees h s j x g hm =
      elim (Option-cases (E.get h s.db.idx_session_token)) [
        | inl e ↦
            rw (e, Bolt.get_session_by_token_hash)
              (ap session_of (sym (find-eq-index h s.db j.mem.sessions x g.1 hm none e)))
        | inr (id, e) ↦
            rw (e, Bolt.get_session_by_token_hash)
              (ap session_of (sym (find-eq-index h s.db j.mem.sessions x g.1 hm (some id) e)))
      ]
