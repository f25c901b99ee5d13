-- ===== src/Media/Visible.antt =====
-- Which files a walk of internal/media/scan.go finds.
use cubozoa.Prelude.{
  any, ◌&&◌, ◌==◌, str_eq, ◌≡◌, inl, inr, refl, ap, ◌∙◌, Bool, false, ◌||◌, Option, List, [], ◌∷◌,
  ◌++◌, Str, is_empty, All, All-append, Bool-cases, Option-cases, arith,
}
use cubozoa.Media.Disk.{ScannedFile}
use cubozoa.Media.Walk.{
  Stat, Node, Nodes, file, folder, nil, more, is_hidden, media_kind, visit_file, visit, visit_all,
}

-- The path of a file below a directory.
abbrev pub join_all : (Str → Str → Str) → Str → List Str → Str
join_all join dir [] = dir
join_all join dir (p ∷ ps) = join_all join (join dir p) ps

abbrev IsShown : Str → Type 0
IsShown name = is_hidden name ≡ false

-- A path is among the files that were found, with what its entry says.
abbrev pub is_found : Str → Stat → List ScannedFile → Bool
is_found path st = any (λ f. str_eq f.path path && (f.size == st.size && f.mod_time == st.mod_time))

module _ (to_lower : Str → Str) (join : Str → Str → Str) where
  -- A file of the walk: its path is the root's with its parts below it, none of them hidden.
  pub record IsVisible (root : Str) (f : ScannedFile) : Type 0 where
    pub path_eq : f.path ≡ join_all join root f.rel_parts
    pub shown : All IsShown f.rel_parts

  join_all-append :
      (root : Str) (ps : List Str) (n : Str)
      → join (join_all join root ps) n ≡ join_all join root (ps ++ (n ∷ []))
  join_all-append root [] n = refl
  join_all-append root (p ∷ ps) n = join_all-append (join root p) ps n

  visit_file-IsVisible :
      (root dir : Str) (parts : List Str) (name : Str) (symlink : Bool) (stat : Option Stat)
      → dir ≡ join_all join root parts
      → All IsShown parts
      → All (IsVisible root) (visit_file to_lower join dir parts name symlink stat)
  unfolding visit_file
  visit_file-IsVisible root dir parts name symlink stat e h =
      elim (Bool-cases (symlink || is_hidden name)) [
        | inl a ↦ rw (a, visit_file) tt
        | inr a ↦ elim (Bool-cases (is_empty (media_kind to_lower name).0)) [
          | inl b ↦ rw (a, b, visit_file) tt
          | inr b ↦ elim (Option-cases stat) [
            | inl c ↦ rw (a, b, c, visit_file) tt
            | inr (st, c) ↦
                rw (a, b, c, visit_file)
                  (
                    record {
                      path_eq = ap (λ (d : Str). join d name) e ∙ join_all-append root parts name;
                      shown = All-append IsShown parts (name ∷ []) h (ground (arith, a), tt);
                    },
                    tt,
                  )
          ]
        ]
      ]

  mutual
    unfolding visit visit_all

    visit-IsVisible :
        (root dir : Str) (parts : List Str) (n : Node)
        → dir ≡ join_all join root parts
        → All IsShown parts
        → All (IsVisible root) (visit to_lower join dir parts n)
    visit-IsVisible root dir parts (file name symlink stat) e h =
        visit_file-IsVisible root dir parts name symlink stat e h
    visit-IsVisible root dir parts (folder name entries) e h = elim (Bool-cases (is_hidden name)) [
      | inl a ↦ rw (a, visit) tt
      | inr a ↦
          rw (a, visit)
            (visit_all-IsVisible root (join dir name) (parts ++ (name ∷ [])) entries
              (ap (λ (d : Str). join d name) e ∙ join_all-append root parts name)
              (All-append IsShown parts (name ∷ []) h (a, tt)))
    ]

    visit_all-IsVisible :
        (root dir : Str) (parts : List Str) (ns : Nodes)
        → dir ≡ join_all join root parts
        → All IsShown parts
        → All (IsVisible root) (visit_all to_lower join dir parts ns)
    visit_all-IsVisible root dir parts nil e h = tt
    visit_all-IsVisible root dir parts (more n ns) e h =
        All-append (IsVisible root) (visit to_lower join dir parts n)
          (visit_all to_lower join dir parts ns) (visit-IsVisible root dir parts n e h)
          (visit_all-IsVisible root dir parts ns e h)
