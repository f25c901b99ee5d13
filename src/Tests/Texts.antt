-- ===== src/Tests/Texts.antt =====
-- Subtitles at a small concrete text.
use cubozoa.Prelude.{◌∷◌, ◌++◌, Str, codes}

-- One cue, with a carriage return.
abbrev cue : Str
cue = codes "00:00:01,000 --> 00:00:04,000" ++ (13 ∷ 10 ∷ codes "Yes, sir")
