-- ===== src/Media/Walk.antt =====
-- internal/media/scan.go and naming.go: collectFiles, which walks a library's directory. A directory
-- tree stands for what filepath.WalkDir visits, its entries in the order of their names; `to_lower` is
-- strings.ToLower and `join` is filepath.Join.
use cubozoa.Prelude.{
  ℕ, Bool, ◌||◌, Option, none, some, List, [], ◌∷◌, ◌++◌, map, any, Str, codes, is_empty, str_eq,
  has_prefix, ◌==◌, if◌then◌else◌,
}
use cubozoa.Store.Models.{Time}
use cubozoa.Media.Disk.{ScannedFile}

-- `d.Info()`
pub record Stat : Type 0 where
  pub size : ℕ
  pub mod_time : Time

mutual
  -- An entry that is no directory carries whether it is a symbolic link, and its information, if that
  -- can be had. A directory that cannot be read has no entries.
  pub data Node : Type 0 where
    file : Str → Bool → Option Stat → Node
    folder : Str → Nodes → Node

  pub data Nodes : Type 0 where
    nil : Nodes
    more : Node → Nodes → Nodes

abbrev pub video_extensions : List Str
video_extensions = map codes (
    ".mkv" ∷ ".mp4" ∷ ".m4v" ∷ ".avi" ∷ ".mov" ∷ ".wmv" ∷ ".flv" ∷ ".webm" ∷ ".mpg" ∷ ".mpeg"
    ∷ ".ts" ∷ ".m2ts" ∷ ".3gp" ∷ ".ogv" ∷ ".divx" ∷ [])

abbrev pub audio_extensions : List Str
audio_extensions = map codes (
    ".mp3" ∷ ".flac" ∷ ".m4a" ∷ ".aac" ∷ ".ogg" ∷ ".oga" ∷ ".opus" ∷ ".wav" ∷ ".wma" ∷ ".alac" ∷ [])

-- `filepath.Ext` of a name without a slash: the suffix at the last dot, given the suffix found so far.
unfoldable pub ext_loop : Str → Str → Str
ext_loop found [] = found
ext_loop found (c ∷ s) = ext_loop (if c == b'.' then c ∷ s else found) s

unfoldable pub ext : Str → Str
unfolding ext_loop
ext name = ext_loop [] name

-- `strings.TrimPrefix(ext, ".")`
abbrev pub without_dot : Str → Str
without_dot [] = []
without_dot (c ∷ s) = if c == b'.' then s else c ∷ s

abbrev pub is_hidden : Str → Bool
is_hidden name = has_prefix name (codes ".")

-- The kind, empty for what is not media, and the container.
unfoldable pub media_kind : (Str → Str) → Str → Str × Str
unfolding ext
media_kind to_lower name =
    let e = to_lower (ext name) in
    if any (str_eq e) video_extensions
    then (codes "Video", without_dot e)
    else if any (str_eq e) audio_extensions
    then (codes "Audio", without_dot e)
    else ([], [])

module _ (to_lower : Str → Str) (join : Str → Str → Str) where
  -- What the walk does at a file below the directory `dir`, whose path below the root is `parts`.
  unfoldable pub visit_file : Str → List Str → Str → Bool → Option Stat → List ScannedFile
  unfolding media_kind
  visit_file dir parts name symlink stat =
      if symlink || is_hidden name
      then []
      else if is_empty (media_kind to_lower name).0
      then []
      else elim stat [
        | none ↦ []
        | some st ↦
            record {
              path = join dir name;
              rel_parts = parts ++ (name ∷ []);
              kind = (media_kind to_lower name).0;
              container = (media_kind to_lower name).1;
              size = st.size;
              mod_time = st.mod_time;
            }
            ∷ []
      ]

  unfoldable mutual
    unfolding visit_file

    pub visit : Str → List Str → Node → List ScannedFile
    visit dir parts (file name symlink stat) = visit_file dir parts name symlink stat
    visit dir parts (folder name entries) =
        let below = visit_all (join dir name) (parts ++ (name ∷ [])) entries in
        if is_hidden name then [] else below

    pub visit_all : Str → List Str → Nodes → List ScannedFile
    visit_all dir parts nil = []
    visit_all dir parts (more n ns) = visit dir parts n ++ visit_all dir parts ns

  -- `root` is `none` where the directory is missing, cannot be read, or is a symbolic link: the walk
  -- passes over what it cannot read, and answers no error.
  unfoldable pub collect_files : Str → Option Nodes → Option (List ScannedFile)
  unfolding visit_all
  collect_files path none = some []
  collect_files path (some entries) = some (visit_all path [] entries)
