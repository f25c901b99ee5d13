-- ===== src/Livetv/Playlist.antt =====
-- What the playlist parser of internal/livetv/m3u.go emits.
use cubozoa.Prelude.{
  ℕ, ◌+◌, ◌/◌, ◌%◌, ◌≡◌, refl, ap, ap₂, ◌∙◌, subst, inl, inr, Bool, true, false, not, ◌&&◌, ◌||◌,
  none, some, List, [], ◌∷◌, ◌++◌, Str, codes, is_empty, str_eq, has_prefix, itoa, digits, ltb,
  ◌==◌, if◌then◌else◌, All, All-append, Bool-cases, Option-cases, arith,
}
use cubozoa.Host.{Host}
use cubozoa.Livetv.M3u.{
  Channel, Parser, split_display_loop, split_display_name, is_stream_url, channel_id,
  finalize_channel, complete, parse_line, parse_lines, split_lines, parse_m3u,
}

-- Quotes that are closed, and no comma outside them; `in_quotes` is the state at the start.
abbrev Closed : Bool → Str → Type 0
Closed in_quotes [] = in_quotes ≡ false
Closed in_quotes (c ∷ s) =
    ((c ≡ b',') → in_quotes ≡ true) × Closed (if c == b'"' then not in_quotes else in_quotes) s

split_display_loop_sound :
    (in_quotes : Bool) (s : Str) {name rest : Str}
    → split_display_loop in_quotes s ≡ some (name, rest)
    → (s ≡ rest ++ b',' ∷ name) × Closed in_quotes rest
unfolding split_display_loop
split_display_loop_sound in_quotes [] e = absurd (cc)
split_display_loop_sound in_quotes (c ∷ s) {name} {rest} e =
    elim (Bool-cases ((c == b',') && not in_quotes)) [
      | inl t ↦ (ground (arith, t), ground (arith, t))
      | inr t ↦
          elim (Option-cases
            (split_display_loop (if c == b'"' then not in_quotes else in_quotes) s)) [
              | inl n ↦ absurd (ground (arith, t, n))
              | inr ((name', rest'), n) ↦
                  let (whole, closed) =
                    split_display_loop_sound (if c == b'"' then not in_quotes else in_quotes) s n in
                  let same_name : name' ≡ name = ground (arith, t, n) in
                  let same_rest : c ∷ rest' ≡ rest = ground (arith, t, n) in
                  (
                    ap (λ (l : Str). c ∷ l) whole
                        ∙ ap₂ (λ (l m : Str). l ++ b',' ∷ m) same_rest same_name,
                    subst (Closed in_quotes) same_rest ((λ q. ground (arith, t, q)), closed),
                  )
            ]
    ]

-- The display name is what stands behind the first comma outside quotes, and the rest what is before.
split_display_name_sound :
    (s : Str) {name rest : Str}
    → split_display_name s ≡ some (name, rest)
    → (s ≡ rest ++ b',' ∷ name) × Closed false rest
unfolding split_display_name
split_display_name_sound s e = split_display_loop_sound false s e

itoa_nonempty : (n : ℕ) → is_empty (itoa n) ≡ false
unfolding itoa digits
itoa_nonempty n = elim (Bool-cases (ltb n 10)) [
  | inl e ↦ rw e refl
  | inr e ↦ rw e (filled (digits n (n / 10)) (b'0' + n % 10))
]
  where
    filled : (s : Str) (c : ℕ) → is_empty (s ++ c ∷ []) ≡ false
    filled [] c = refl
    filled (x ∷ s) c = refl

module _ (host : Host) where
  -- What a client can rely on in a channel.
  pub record IsReady (ch : Channel) : Type 0 where
    pub streams : is_stream_url ch.url ≡ true
    pub named : is_empty ch.name ≡ false
    pub numbered : is_empty ch.number ≡ false
    pub identified : ch.id ≡ channel_id host ch

  finalize_channel-IsReady :
      (ch : Channel) (n : ℕ) → is_stream_url ch.url ≡ true → IsReady (finalize_channel host ch n)
  unfolding finalize_channel channel_id
  finalize_channel-IsReady ch n s = elim (Bool-cases (is_empty ch.name)) [
    | inl e ↦ elim (Bool-cases (is_empty ch.number)) [
      | inl f ↦
          rw (e, f)
            (record { streams = s; named = refl; numbered = itoa_nonempty n; identified = refl })
      | inr f ↦ rw (e, f) (record { streams = s; named = refl; numbered = f; identified = refl })
    ]
    | inr e ↦ elim (Bool-cases (is_empty ch.number)) [
      | inl f ↦
          rw (e, f)
            (record { streams = s; named = e; numbered = itoa_nonempty n; identified = refl })
      | inr f ↦ rw (e, f) (record { streams = s; named = e; numbered = f; identified = refl })
    ]
  ]

  -- The parser's invariant.
  pub record IsConsistent (p : Parser) : Type 0 where
    pub ready : All IsReady p.channels

  complete-IsConsistent :
      (line : Str) (p : Parser) → IsConsistent p → IsConsistent (complete host line p)
  unfolding complete
  complete-IsConsistent line p h = elim (Option-cases p.pending) [
    | inl e ↦ rw e (record { ready = h.ready })
    | inr (ch, e) ↦ elim (Bool-cases (is_stream_url line)) [
      | inl s ↦
          rw (e, s)
            (record {
              ready =
                  All-append IsReady p.channels _ h.ready
                    (finalize_channel-IsReady (record ch { url = line }) (p.auto_num + 1) s, tt);
            })
      | inr s ↦ rw (e, s) (record { ready = h.ready })
    ]
  ]

  parse_line-IsConsistent :
      (raw : Str) (p : Parser) → IsConsistent p → IsConsistent (parse_line host raw p)
  unfolding parse_line
  parse_line-IsConsistent raw p h =
      let line = host.trim_space raw in
      kept (is_empty line || str_eq line (codes "#EXTM3U")) h (
        kept (has_prefix line (codes "#EXTINF:")) (record { ready = h.ready })
          (kept (has_prefix line (codes "#EXTGRP:")) (record { ready = h.ready })
            (kept (has_prefix line (codes "#")) h (complete-IsConsistent line p h))))
    where
      kept :
          (b : Bool) {x y : Parser}
          → IsConsistent x
          → IsConsistent y
          → IsConsistent (if b then x else y)
      kept true hx hy = hx
      kept false hx hy = hy

  parse_lines-IsConsistent :
      (lines : List Str) (p : Parser) → IsConsistent p → IsConsistent (parse_lines host lines p)
  unfolding parse_lines
  parse_lines-IsConsistent [] p h = h
  parse_lines-IsConsistent (line ∷ lines) p h =
      parse_lines-IsConsistent lines (parse_line host line p) (parse_line-IsConsistent line p h)

  -- Every channel of a playlist, whatever the text, has a stream address of an allowed scheme, a name and
  -- a number, and the identity that its guide identity or else its address gives it.
  pub parse_m3u-IsReady : (text : Str) → All IsReady (parse_m3u host text)
  unfolding parse_m3u
  parse_m3u-IsReady text =
      (parse_lines-IsConsistent (split_lines text)
        (record { channels = []; pending = none; auto_num = 0 }) (record { ready = tt })).ready
