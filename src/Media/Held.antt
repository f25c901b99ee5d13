-- ===== src/Media/Held.antt =====
-- Where in the tree a file stands that a walk of internal/media/scan.go collects, and its kind.
use cubozoa.Prelude.{
  any, str_eq, ◌≡◌, inl, inr, refl, ◌∙◌, Bool, true, false, ◌||◌, Option, none, some, List, [], ◌∷◌,
  ◌++◌, Str, is_empty, All, All-append, All-map, codes, ◌⊎◌, Bool-cases, arith, append_assoc,
}
use cubozoa.Media.Disk.{ScannedFile}
use cubozoa.Media.Walk.{
  Stat, Node, Nodes, file, folder, nil, more, is_hidden, ext, video_extensions, audio_extensions,
  media_kind, visit_file, visit, visit_all,
}

-- The file `name` stands below the directories `below` of a tree, and is no symbolic link.
pub data Holds : Nodes → List Str → Str → Stat → Type 0 where
  here :
      (name : Str) (st : Stat) (ns : Nodes) → Holds (more (file name false (some st)) ns) [] name st
  inside :
      (dir : Str) (entries ns : Nodes) (below : List Str) (name : Str) (st : Stat)
      → Holds entries below name st
      → Holds (more (folder dir entries) ns) (dir ∷ below) name st
  later :
      (n : Node) (ns : Nodes) (below : List Str) (name : Str) (st : Stat)
      → Holds ns below name st
      → Holds (more n ns) below name st

module _ (to_lower : Str → Str) (join : Str → Str → Str) where
  -- What the extension of a name says of its kind: a video or an audio file.
  abbrev pub IsKind : Str → Str → Type 0
  IsKind name kind =
      ((any (str_eq (to_lower (ext name))) video_extensions ≡ true) × (kind ≡ codes "Video"))
      ⊎ ((any (str_eq (to_lower (ext name))) audio_extensions ≡ true) × (kind ≡ codes "Audio"))

  -- A file that was collected is one of the tree, and no symbolic link, with its parts, its size, its
  -- time and the kind of its extension.
  pub record IsHeld (ns : Nodes) (parts : List Str) (f : ScannedFile) : Type 0 where
    pub below : List Str
    pub name : Str
    pub st : Stat
    pub holds : Holds ns below name st
    pub rel_eq : f.rel_parts ≡ parts ++ (below ++ (name ∷ []))
    pub size_eq : f.size ≡ st.size
    pub time_eq : f.mod_time ≡ st.mod_time
    pub kind_eq : IsKind name f.kind

  media_kind-IsKind :
      (name : Str)
      → is_empty (media_kind to_lower name).0 ≡ false
      → IsKind name (media_kind to_lower name).0
  unfolding media_kind
  media_kind-IsKind name h =
      elim (Bool-cases (any (str_eq (to_lower (ext name))) video_extensions)) [
        | inl v ↦ inl (v, rw (v, media_kind))
        | inr v ↦ elim (Bool-cases (any (str_eq (to_lower (ext name))) audio_extensions)) [
          | inl a ↦ inr (a, rw (v, a, media_kind))
          | inr a ↦ absurd (ground (arith, v, a, h))
        ]
      ]

  pub known_kind :
      (name : Str)
      → any (str_eq (to_lower (ext name))) video_extensions
          || any (str_eq (to_lower (ext name))) audio_extensions
        ≡ true
      → is_empty (media_kind to_lower name).0 ≡ false
  unfolding media_kind
  known_kind name h = elim (Bool-cases (any (str_eq (to_lower (ext name))) video_extensions)) [
    | inl v ↦ rw (v, media_kind)
    | inr v ↦ elim (Bool-cases (any (str_eq (to_lower (ext name))) audio_extensions)) [
      | inl a ↦ rw (v, a, media_kind)
      | inr a ↦ absurd (ground (arith, v, a, h))
    ]
  ]

  later-IsHeld :
      (n : Node) (ns : Nodes) (parts : List Str) (f : ScannedFile)
      → IsHeld ns parts f
      → IsHeld (more n ns) parts f
  later-IsHeld n ns parts f h = record {
    below = h.below;
    name = h.name;
    st = h.st;
    holds = later n ns h.below h.name h.st h.holds;
    rel_eq = h.rel_eq;
    size_eq = h.size_eq;
    time_eq = h.time_eq;
    kind_eq = h.kind_eq;
  }

  inside-IsHeld :
      (dir : Str) (entries ns : Nodes) (parts : List Str) (f : ScannedFile)
      → IsHeld entries (parts ++ (dir ∷ [])) f
      → IsHeld (more (folder dir entries) ns) parts f
  inside-IsHeld dir entries ns parts f h = record {
    below = dir ∷ h.below;
    name = h.name;
    st = h.st;
    holds = inside dir entries ns h.below h.name h.st h.holds;
    rel_eq = h.rel_eq ∙ append_assoc parts (dir ∷ []) (h.below ++ (h.name ∷ []));
    size_eq = h.size_eq;
    time_eq = h.time_eq;
    kind_eq = h.kind_eq;
  }

  visit_file-IsHeld :
      (dir : Str) (parts : List Str) (name : Str) (symlink : Bool) (stat : Option Stat) (ns : Nodes)
      → All
          (IsHeld (more (file name symlink stat) ns) parts)
          (visit_file to_lower join dir parts name symlink stat)
  unfolding visit_file
  visit_file-IsHeld dir parts name true stat ns = tt
  visit_file-IsHeld dir parts name false none ns = elim (Bool-cases (is_hidden name)) [
    | inl a ↦ rw (a, visit_file) tt
    | inr a ↦ elim (Bool-cases (is_empty (media_kind to_lower name).0)) [
      | inl b ↦ rw (a, b, visit_file) tt
      | inr b ↦ rw (a, b, visit_file) tt
    ]
  ]
  visit_file-IsHeld dir parts name false (some st) ns = elim (Bool-cases (is_hidden name)) [
    | inl a ↦ rw (a, visit_file) tt
    | inr a ↦ elim (Bool-cases (is_empty (media_kind to_lower name).0)) [
      | inl b ↦ rw (a, b, visit_file) tt
      | inr b ↦
          rw (a, b, visit_file)
            (
              record {
                below = [];
                name = name;
                st = st;
                holds = here name st ns;
                rel_eq = refl;
                size_eq = refl;
                time_eq = refl;
                kind_eq = media_kind-IsKind name b;
              },
              tt,
            )
    ]
  ]

  pub visit_all-IsHeld :
      (dir : Str) (parts : List Str) (ns : Nodes)
      → All (IsHeld ns parts) (visit_all to_lower join dir parts ns)
  unfolding visit visit_all
  visit_all-IsHeld dir parts nil = tt
  visit_all-IsHeld dir parts (more (file name symlink stat) ns) =
      All-append (IsHeld (more (file name symlink stat) ns) parts)
        (visit_file to_lower join dir parts name symlink stat)
        (visit_all to_lower join dir parts ns) (visit_file-IsHeld dir parts name symlink stat ns)
        (All-map (later-IsHeld (file name symlink stat) ns parts)
          (visit_all to_lower join dir parts ns) (visit_all-IsHeld dir parts ns))
  visit_all-IsHeld dir parts (more (folder name entries) ns) =
      let below = visit_all to_lower join (join dir name) (parts ++ (name ∷ [])) entries in
      let rest =
        All-map (later-IsHeld (folder name entries) ns parts) (visit_all to_lower join dir parts ns)
          (visit_all-IsHeld dir parts ns) in
      let deep =
        All-map (inside-IsHeld name entries ns parts) below
          (visit_all-IsHeld (join dir name) (parts ++ (name ∷ [])) entries) in
      elim (Bool-cases (is_hidden name)) [
        | inl a ↦ rw (a, visit) rest
        | inr a ↦
            rw (a, visit)
              (All-append (IsHeld (more (folder name entries) ns) parts) below
                (visit_all to_lower join dir parts ns) deep rest)
      ]
