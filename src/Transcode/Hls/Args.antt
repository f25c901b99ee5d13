-- ===== src/Transcode/Hls/Args.antt =====
-- The ffmpeg command lines of internal/transcode/hls.go.
-- `join` is filepath.Join. `start` is the text of the seek offset, `none` if it is not positive.
use Prim.Native.String.{String}
use cubozoa.Prelude.{
  ℕ, ◌*◌, ◌/◌, ◌++◌, Bool, ◌&&◌, Option, none, some, List, [], ◌∷◌, Str, codes, ltb, itoa, map,
  ◌==◌, if◌then◌else◌,
}
use cubozoa.Transcode.Abr.{Rendition}

abbrev pub playlist_name : Str
playlist_name = codes "index.m3u8"

abbrev pub segment_glob : Str
segment_glob = codes "seg%05d.ts"

abbrev words : List String → List Str
words = map codes

-- A bit rate in the notation of ffmpeg.
abbrev kilo : ℕ → Str
kilo n = itoa n ++ codes "k"

module _ (join : Str → Str → Str) where
  unfoldable pub live_args : Str → Bool → Str → List Str
  live_args input reencode dir =
      (codes "-nostdin" ∷ codes "-fflags" ∷ codes "+genpts" ∷ codes "-i" ∷ input ∷ [])
      ++ ((if reencode
            then words (
                "-c:v" ∷ "libx264" ∷ "-preset" ∷ "veryfast" ∷ "-crf" ∷ "23" ∷ "-c:a" ∷ "aac" ∷ "-ac"
                ∷ "2" ∷ "-b:a" ∷ "128k" ∷ [])
            else words ("-c" ∷ "copy" ∷ []))
          ++ (words (
                "-f" ∷ "hls" ∷ "-hls_time" ∷ "4" ∷ "-hls_list_size" ∷ "6" ∷ "-hls_flags"
                ∷ "delete_segments+temp_file+independent_segments" ∷ "-hls_segment_type" ∷ "mpegts"
                ∷ "-hls_segment_filename" ∷ [])
              ++ (join dir segment_glob ∷ join dir playlist_name ∷ [])))

  -- Scaling and a capped bit rate for a rung of the ladder, else constant quality.
  unfoldable video_args : Rendition → List Str
  video_args r =
      if ltb 0 r.height && ltb 0 r.video_kbps
      then codes "-vf"
        ∷ (codes "scale=-2:" ++ itoa r.height)
        ∷ (words ("-c:v" ∷ "libx264" ∷ "-preset" ∷ "veryfast" ∷ "-b:v" ∷ [])
            ++ (kilo r.video_kbps
                ∷ codes "-maxrate"
                ∷ kilo (r.video_kbps * 107 / 100)
                ∷ codes "-bufsize"
                ∷ kilo (r.video_kbps * 3 / 2)
                ∷ []))
      else words ("-c:v" ∷ "libx264" ∷ "-preset" ∷ "veryfast" ∷ "-crf" ∷ "23" ∷ [])

  unfoldable pub ffmpeg_args : Str → Option Str → Rendition → Str → List Str
  unfolding video_args
  ffmpeg_args input start r dir =
      let seek : List Str = elim start [ none ↦ [] | some t ↦ codes "-ss" ∷ t ∷ [] ] in
      let audio_kbps = if r.audio_kbps == 0 then 128 else r.audio_kbps in
      (codes "-nostdin" ∷ seek)
      ++ ((codes "-i" ∷ input ∷ words ("-map" ∷ "0:v:0" ∷ "-map" ∷ "0:a:0?" ∷ []))
          ++ (video_args r
              ++ ((words ("-c:a" ∷ "aac" ∷ "-ac" ∷ "2" ∷ "-b:a" ∷ [])
                    ++ (kilo audio_kbps
                        ∷ words (
                            "-f" ∷ "hls" ∷ "-hls_time" ∷ "6" ∷ "-hls_playlist_type" ∷ "vod"
                            ∷ "-hls_list_size" ∷ "0" ∷ "-hls_segment_type" ∷ "mpegts" ∷ "-hls_flags"
                            ∷ "independent_segments+temp_file" ∷ "-hls_segment_filename" ∷ [])))
                  ++ (join dir segment_glob ∷ join dir playlist_name ∷ []))))
