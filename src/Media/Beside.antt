-- ===== src/Media/Beside.antt =====
-- Which subtitles internal/media/subtitles.go finds beside a video.
use cubozoa.Prelude.{
  ◌≡◌, inl, inr, refl, ap, Bool, true, false, ◌||◌, ◌&&◌, Option, none, some, List, [], ◌∷◌, ◌++◌,
  any, drop, min, length, subst, Str, codes, str_eq, str_eq_refl, is_empty, has_prefix, All,
  All-map, Bool-cases, Option-cases, arith, if◌then◌else◌,
}
use cubozoa.Store.Models.{SubtitleTrack}
use cubozoa.Media.Walk.{ext}
use cubozoa.Media.Subtitles.{
  subtitle_codec, is_lang_token, token_loop, parse_subtitle_tokens, split, stem_of, subtitle_of,
  find_subtitles,
}

-- No language, or a code of two or three letters.
abbrev pub is_language : Str → Bool
is_language lang = is_empty lang || is_lang_token lang

if_language :
    (b : Bool) (x y : Str)
    → (b ≡ true → is_language x ≡ true)
    → is_language y ≡ true
    → is_language (if b then x else y) ≡ true
if_language true x y h k = h refl
if_language false x y h k = k

token_is_language :
    (a b : Bool) (tok : Str) → a && (b && is_lang_token tok) ≡ true → is_language tok ≡ true
token_is_language a b tok h = ground (arith, h)

token_loop-is_language :
    (toks : List Str) (lang : Str) (forced : Bool)
    → is_language lang ≡ true
    → is_language (token_loop toks lang forced).0 ≡ true
unfolding token_loop
token_loop-is_language [] lang forced h = h
token_loop-is_language (tok ∷ toks) lang forced h =
    token_loop-is_language toks _ _
      (if_language _ tok lang (token_is_language _ (is_empty lang) tok) h)

parse_subtitle_tokens-is_language : (rest : Str) → is_language (parse_subtitle_tokens rest).0 ≡ true
unfolding parse_subtitle_tokens
parse_subtitle_tokens-is_language rest = token_loop-is_language (split b'.' rest) [] false refl

abbrev path_of : Option SubtitleTrack → Str
path_of none = []
path_of (some t) = t.path

abbrev language_of : Option SubtitleTrack → Str
language_of none = []
language_of (some t) = t.language

module _ (to_lower to_upper : Str → Str) (join : Str → Str → Str) where
  -- A file's name is the video's, or that with more behind a dot, up to the extension and to case.
  abbrev pub extends : Str → Str → Bool
  extends base name =
      str_eq (to_lower (stem_of name)) (to_lower base)
      || has_prefix (to_lower (stem_of name)) (to_lower base ++ codes ".")

  -- What a track says of a file beside the video.
  pub record IsBeside (dir base : Str) (names : List Str) (t : SubtitleTrack) : Type 0 where
    pub listed : any (λ n. str_eq (join dir n) t.path && extends base n) names ≡ true
    pub language : is_language t.language ≡ true

  subtitle_of_lem :
      (dir base name : Str) (t : SubtitleTrack)
      → subtitle_of to_lower to_upper join dir base name ≡ some t
      → (join dir name ≡ t.path) × (extends base name ≡ true) × (is_language t.language ≡ true)
  unfolding subtitle_of
  subtitle_of_lem dir base name t h =
      let stem = to_lower (stem_of name) in
      let rest = drop (min (length (to_lower base)) (length stem)) stem in
      let lang = parse_subtitle_tokens-is_language rest in
      elim (Option-cases (subtitle_codec (to_lower (ext name)))) [
        | inl e ↦ absurd (ground (arith, rw (e, subtitle_of) at h))
        | inr (codec, e) ↦ elim (Bool-cases (str_eq stem (to_lower base))) [
          | inl f ↦
              let q = rw (e, f, subtitle_of) at h in
              (ap path_of q, rw f refl, subst (λ x. is_language x ≡ true) (ap language_of q) lang)
          | inr f ↦ elim (Bool-cases (has_prefix stem (to_lower base ++ codes "."))) [
            | inl g ↦
                let q = rw (e, f, g, subtitle_of) at h in
                (
                  ap path_of q,
                  rw (f, g) refl,
                  subst (λ x. is_language x ≡ true) (ap language_of q) lang,
                )
            | inr g ↦ absurd (ground (arith, rw (e, f, g, subtitle_of) at h))
          ]
        ]
      ]

  more-IsBeside :
      (dir base n : Str) (names : List Str) (t : SubtitleTrack)
      → IsBeside dir base names t
      → IsBeside dir base (n ∷ names) t
  more-IsBeside dir base n names t h = record {
    listed = ground (arith, h.listed);
    language = h.language;
  }

  -- Every track that is found is a file of the video's directory whose name extends the video's, and its
  -- language is none or a code of two or three letters.
  pub find_subtitles_sound :
      (dir base : Str) (names : List Str)
      → All (IsBeside dir base names) (find_subtitles to_lower to_upper join dir base names)
  unfolding find_subtitles
  find_subtitles_sound dir base [] = tt
  find_subtitles_sound dir base (n ∷ names) =
      let rest =
        All-map (more-IsBeside dir base n names)
          (find_subtitles to_lower to_upper join dir base names)
          (find_subtitles_sound dir base names) in
      elim (Option-cases (subtitle_of to_lower to_upper join dir base n)) [
        | inl e ↦ rw (e, find_subtitles) rest
        | inr (t, e) ↦
            let (p, x, l) = subtitle_of_lem dir base n t e in
            rw (e, find_subtitles)
              (record { listed = ground (arith, p, x, str_eq_refl t.path); language = l }, rest)
      ]
