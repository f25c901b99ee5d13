-- ===== src/UserData/Resume.antt =====
-- What `Resumable` of internal/userdata/service.go lists, and in which order.
use mathlib.Core.List.{
  Mem, Perm, Pairwise, perm_middle, reverse_perm, append-nil, mem-cons, not-mem-nil, Pairwise-cons,
  Pairwise-reverse,
}
use mathlib.Core.List.Perm
use mathlib.Core.Logic.Or
use native.Mathlib.Bridge.{le_prop}
use cubozoa.Prelude.{
  ℕ, ◌≤◌, ◌≡◌, refl, inl, inr, List, [], ◌∷◌, ◌++◌, map, reverse, Str, ltb, keep, arith, Bool-cases,
  All,
}
use cubozoa.Store.Models.{UserItemData}
use cubozoa.Store.State.{JsonStore}
use cubozoa.Store.Playback.{list_user_item_data}
use cubozoa.UserData.{move_left, sort_loop, sort_by_last_played_desc, in_progress, resumable}

move_left-perm : (d : UserItemData) (left : List UserItemData) → Perm (move_left d left) (d ∷ left)
unfolding move_left
move_left-perm d [] = Perm.refl _
move_left-perm d (e ∷ left) = elim (Bool-cases (ltb e.last_played_at d.last_played_at)) [
  | inl t ↦ rw t (Perm.trans (Perm.cons e (move_left-perm d left)) (Perm.swap _ _ _))
  | inr t ↦ rw t (Perm.refl _)
]

sort_loop-perm : (left ds : List UserItemData) → Perm (sort_loop left ds) (ds ++ left)
unfolding sort_loop
sort_loop-perm left [] = Perm.refl _
sort_loop-perm left (d ∷ ds) =
    Perm.trans (sort_loop-perm (move_left d left) ds)
      (Perm.trans (Perm.append (Perm.refl ds) (move_left-perm d left)) (perm_middle ds left))

-- Played no earlier than a time.
abbrev Since : ℕ → List UserItemData → Type 0
Since n = All (λ e. n ≤ e.last_played_at)

-- From right to left, each entry was played no later than those that stand before it.
abbrev RightToLeft : List UserItemData → Type 0
RightToLeft [] = Unit
RightToLeft (d ∷ left) = Since d.last_played_at left × RightToLeft left

Since-le : (n m : ℕ) (ds : List UserItemData) → n ≤ m → Since m ds → Since n ds
Since-le n m [] h s = tt
Since-le n m (d ∷ ds) h (a, s) = (omega arith, Since-le n m ds h s)

Since-move_left :
    (n : ℕ) (d : UserItemData) (left : List UserItemData)
    → n ≤ d.last_played_at
    → Since n left
    → Since n (move_left d left)
unfolding move_left
Since-move_left n d [] h s = (h, tt)
Since-move_left n d (e ∷ left) h (a, s) =
    elim (Bool-cases (ltb e.last_played_at d.last_played_at)) [
      | inl t ↦ rw t (a, Since-move_left n d left h s)
      | inr t ↦ rw t (h, (a, s))
    ]

move_left-RightToLeft :
    (d : UserItemData) (left : List UserItemData)
    → RightToLeft left
    → RightToLeft (move_left d left)
unfolding move_left
move_left-RightToLeft d [] h = (tt, tt)
move_left-RightToLeft d (e ∷ left) (a, h) =
    elim (Bool-cases (ltb e.last_played_at d.last_played_at)) [
      | inl t ↦
          rw t (
            Since-move_left e.last_played_at d left (ground arith) a,
            move_left-RightToLeft d left h,
          )
      | inr t ↦
          let le : d.last_played_at ≤ e.last_played_at = ground arith in
          rw t ((le, Since-le _ _ left le a), (a, h))
    ]

sort_loop-RightToLeft :
    (left ds : List UserItemData) → RightToLeft left → RightToLeft (sort_loop left ds)
unfolding sort_loop
sort_loop-RightToLeft left [] h = h
sort_loop-RightToLeft left (d ∷ ds) h =
    sort_loop-RightToLeft (move_left d left) ds (move_left-RightToLeft d left h)

Since-mem :
    (n : ℕ) (e : UserItemData) (ds : List UserItemData)
    → Since n ds
    → Mem e ds
    → n ≤ e.last_played_at
Since-mem n e [] s m = absurd (not-mem-nil m)
Since-mem n e (d ∷ ds) (a, s) m = Or.elim le_prop (mem-cons.0 m) (λ q. rw q a) (Since-mem n e ds s)

RightToLeft-Pairwise :
    (ds : List UserItemData)
    → RightToLeft ds
    → Pairwise (λ d e. d.last_played_at ≤ e.last_played_at) ds
RightToLeft-Pairwise [] h = Pairwise.nil
RightToLeft-Pairwise (d ∷ ds) (a, h) =
    Pairwise-cons.1 ((λ e m. Since-mem _ e ds a m), RightToLeft-Pairwise ds h)

-- `Resumable` lists each of the user's items that has a position and is not watched, as often as the
-- store holds it, and the most recently played first.
pub resumable_lem :
    (user_id : Str) (s : JsonStore)
    → (ds : List UserItemData) × (resumable user_id s ≡ map (λ (d : UserItemData). d.item_id) ds)
      × Perm ds (keep in_progress (list_user_item_data user_id s))
      × Pairwise (λ d e. e.last_played_at ≤ d.last_played_at) ds
unfolding resumable sort_by_last_played_desc
resumable_lem user_id s =
    let ds = keep in_progress (list_user_item_data user_id s) in
    let sorted = sort_loop [] ds in
    (
      reverse sorted,
      refl,
      Perm.trans (reverse_perm sorted)
          (Perm.trans (sort_loop-perm [] ds) (rw append-nil (Perm.refl ds))),
      (Pairwise-reverse (λ a b. le_prop)).1
          (RightToLeft-Pairwise sorted (sort_loop-RightToLeft [] ds tt)),
    )
