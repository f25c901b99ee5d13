-- ===== src/UserData/Table.antt =====
-- The playback state of internal/userdata/service.go over a history of changes, as a table.
use cubozoa.Prelude.{
  ◌≡◌, refl, ap, ap₂, ◌∙◌, false, ◌&&◌, List, [], ◌∷◌, Str, str_eq, is_empty, if◌then◌else◌, All,
}
use cubozoa.Store.Models.{Time, UserItemData}
use cubozoa.Store.State.{JsonStore}
use cubozoa.Store.Reads.{Lacks0}
use cubozoa.UserData.{get_data}
use cubozoa.UserData.View.{IsFiled, Change, exec, meaning, get_data-exec, exec-IsFiled}

-- A call of the service: what it changes, when, and for which user and item.
pub record Call : Type 0 where
  pub change : Change
  pub at : Time
  pub user : Str
  pub item : Str

-- The identities that the service is called with.
abbrev IsCall : Call → Type 0
IsCall c = Lacks0 c.user × (is_empty c.item ≡ false)

-- The abstract state: each user's data for each item.
abbrev pub Table : Type 0
Table = Str → Str → UserItemData

abbrev pub step : Call → Table → Table
step c t user item =
    if str_eq c.user user && str_eq c.item item
    then meaning c.change c.at (t c.user c.item)
    else t user item

abbrev pub run_table : List Call → Table → Table
run_table [] t = t
run_table (c ∷ cs) t = run_table cs (step c t)

unfoldable pub run_store : List Call → JsonStore → JsonStore
run_store [] s = s
run_store (c ∷ cs) s = run_store cs (exec c.change c.at c.user c.item s)

-- Tables that agree where the identities hold no zero byte.
abbrev Agree : Table → Table → Type 0
Agree t t' = (user item : Str) → Lacks0 user → t user item ≡ t' user item

step-Agree : (c : Call) (t t' : Table) → IsCall c → Agree t t' → Agree (step c t) (step c t')
step-Agree c t t' (hc, e) a user item hu =
    ap₂ (λ (x y : UserItemData). if str_eq c.user user && str_eq c.item item then x else y)
      (ap (meaning c.change c.at) (a c.user c.item hc)) (a user item hu)

run_table-Agree :
    (cs : List Call) (t t' : Table)
    → All IsCall cs
    → Agree t t'
    → Agree (run_table cs t) (run_table cs t')
run_table-Agree [] t t' h a = a
run_table-Agree (c ∷ cs) t t' (hc, h) a =
    run_table-Agree cs (step c t) (step c t') h (step-Agree c t t' hc a)

-- Refinement: after any history of calls, for whatever users and items and whichever writes failed, what
-- `Get` returns is the table's entry after the same history. The store starts with each entry filed under
-- the user and the item that it names, and no item's identity is empty.
pub run_store_refines :
    (cs : List Call) (s : JsonStore) (user item : Str)
    → All IsCall cs
    → IsFiled s
    → Lacks0 user
    → get_data user item (run_store cs s) ≡ run_table cs (λ u i. get_data u i s) user item
unfolding run_store
run_store_refines [] s user item h f hu = refl
run_store_refines (c ∷ cs) s user item (hc, h) f hu =
    let s' = exec c.change c.at c.user c.item s in
    run_store_refines cs s' user item h (exec-IsFiled c.change c.at c.user c.item s f hc.0 hc.1) hu
    ∙ run_table-Agree cs (λ u i. get_data u i s') (step c (λ u i. get_data u i s)) h
        (λ u i h'. get_data-exec c.change c.at c.user c.item u i s f hc.0 h' hc.1) user item hu
