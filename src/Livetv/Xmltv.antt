-- ===== src/Livetv/Xmltv.antt =====
-- internal/livetv/xmltv.go: the programmes and channels of a guide, behind encoding/xml. `parse_time` is
-- time.Parse, which takes the layout.
use cubozoa.Prelude.{
  ◌+◌, ◌-◌, ◌*◌, ◌/◌, Option, none, some, List, [], ◌∷◌, ◌++◌, map, Str, codes, is_empty, itoa,
  keep, not, leb, if◌then◌else◌,
}
use cubozoa.Host.{Host}
use cubozoa.Store.Models.{Time}
use cubozoa.Livetv.Guide.{Program, GuideChannel}

pub record XmltvChannel : Type 0 where
  pub id : Str
  pub display_names : List Str

pub record XmltvProgramme : Type 0 where
  pub start : Str
  pub stop : Str
  pub channel : Str
  pub title : Str
  pub desc : Str
  pub cat : Str

pub record XmltvDoc : Type 0 where
  pub channels : List XmltvChannel
  pub programmes : List XmltvProgramme

-- `strconv.FormatInt(t.Unix(), 10)`: the seconds since 1970, of which 62,135,596,800 lie before.
abbrev unix_text : Time → Str
unix_text t =
    let secs = t / 1_000_000_000 in
    if leb 62_135_596_800 secs
    then itoa (secs - 62_135_596_800)
    else b'-' ∷ itoa (62_135_596_800 - secs)

module _ (host : Host) (parse_time : Str → Str → Option Time) where
  unfoldable program_id : Str → Time → Str → Str
  program_id channel start title =
      host.hash_prefix (codes "program:" ++ (channel ++ (b':' ∷ unix_text start ++ (b':' ∷ title))))

  unfoldable parse_xmltv_time : Str → Option Time
  parse_xmltv_time s =
      let trimmed = host.trim_space s in
      if is_empty trimmed then none else elim (parse_time (codes "20060102150405 -0700") trimmed) [
        | some t ↦ some t
        | none ↦ parse_time (codes "20060102150405") trimmed
      ]

  unfoldable guide_channels : List XmltvChannel → List GuideChannel
  guide_channels [] = []
  guide_channels (c ∷ cs) =
      let rest = guide_channels cs in
      if is_empty c.id
      then rest
      else record {
        id = c.id;
        names = keep (λ n. not (is_empty n)) (map host.trim_space c.display_names);
      }
        ∷ rest

  -- A programme without an end lasts half an hour; one without a start or a channel is left out.
  unfoldable guide_programs : List XmltvProgramme → List Program
  unfolding program_id parse_xmltv_time
  guide_programs [] = []
  guide_programs (p ∷ ps) =
      let rest = guide_programs ps in
      if is_empty p.channel then rest else elim (parse_xmltv_time p.start) [
        | none ↦ rest
        | some start ↦
            let title = host.trim_space p.title in
            record {
              id = program_id p.channel start title;
              channel_tvg_id = p.channel;
              title = title;
              description = host.trim_space p.desc;
              category = host.trim_space p.cat;
              start = start;
              stop = elim (parse_xmltv_time p.stop) [
                | none ↦ start + 30 * 60 * 1_000_000_000
                | some stop ↦ stop
              ];
            }
            ∷ rest
      ]

  unfoldable pub parse_guide : XmltvDoc → List Program × List GuideChannel
  unfolding guide_channels guide_programs
  parse_guide doc = (guide_programs doc.programmes, guide_channels doc.channels)
