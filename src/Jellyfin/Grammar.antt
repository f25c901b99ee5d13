-- ===== src/Jellyfin/Grammar.antt =====
-- How `splitParams` of internal/jellyfin/authheader.go splits a printed list of parameters.
use mathlib.Core.List.{append-nil}
use cubozoa.Prelude.{
  ℕ, ◌≡◌, ◌≢◌, ◌≤◌, refl, ap, ◌∙◌, Bool, true, false, List, [], ◌∷◌, ◌++◌, append_assoc, Str,
  is_empty, All, arith,
}
use cubozoa.Jellyfin.AuthHeader.{split_loop}

-- A key without a quote, a comma or an equals sign.
abbrev pub Plain : Str → Type 0
Plain = All (λ c. (c ≢ b'"') × (c ≢ b',') × (c ≢ b'='))

-- A value without a quote.
abbrev pub Quoteless : Str → Type 0
Quoteless = All (λ c. c ≢ b'"')

abbrev pub Param : Type 0
Param = Str × Str

-- `key="value"`, and then a text.
abbrev pub render_onto : Param → Str → Str
render_onto (key, value) s = key ++ (b'=' ∷ (b'"' ∷ (value ++ (b'"' ∷ s))))

abbrev pub render_rest : List Param → Str
render_rest [] = []
render_rest (p ∷ ps) = b',' ∷ b' ' ∷ render_onto p (render_rest ps)

split_unquoted :
    (q : Bool) (built k s : Str)
    → Plain k
    → split_loop q built (k ++ s) ≡ split_loop q (built ++ k) s
unfolding split_loop
split_unquoted q built [] s h = rw append-nil refl
split_unquoted q built (c ∷ k) s ((a, b, e), h) =
    let step = split_unquoted q (built ++ c ∷ []) k s h in
    let same = append_assoc built (c ∷ []) k in ground (arith, step, same)

split_quoted :
    (built v s : Str)
    → Quoteless v
    → split_loop true built (v ++ s) ≡ split_loop true (built ++ v) s
unfolding split_loop
split_quoted built [] s h = rw append-nil refl
split_quoted built (c ∷ v) s (a, h) =
    let step = split_quoted (built ++ c ∷ []) v s h in
    let same = append_assoc built (c ∷ []) v in ground (arith, step, same)

split_opened :
    (built v s : Str)
    → split_loop false built (b'=' ∷ (b'"' ∷ (v ++ (b'"' ∷ s))))
      ≡ split_loop true ((built ++ b'=' ∷ []) ++ b'"' ∷ []) (v ++ (b'"' ∷ s))
unfolding split_loop
split_opened built v s = refl

split_closed :
    (built s : Str) → split_loop true built (b'"' ∷ s) ≡ split_loop false (built ++ b'"' ∷ []) s
unfolding split_loop
split_closed built s = refl

split_next :
    (built s : Str)
    → split_loop false built (b',' ∷ b' ' ∷ s) ≡ built ∷ split_loop false (b' ' ∷ []) s
unfolding split_loop
split_next built s = refl

split_ended : (built : Str) → is_empty built ≡ false → split_loop false built [] ≡ built ∷ []
unfolding split_loop
split_ended built h = rw h refl

joined :
    (built k v : Str)
    → ((((built ++ k) ++ b'=' ∷ []) ++ b'"' ∷ []) ++ v) ++ b'"' ∷ []
      ≡ built ++ render_onto (k, v) []
joined built k v = simp append_assoc

split_render :
    (built k v s : Str)
    → Plain k
    → Quoteless v
    → split_loop false built (render_onto (k, v) s)
      ≡ split_loop false (built ++ render_onto (k, v) []) s
split_render built k v s hk hv =
    split_unquoted false built k (b'=' ∷ (b'"' ∷ (v ++ (b'"' ∷ s)))) hk
    ∙ split_opened (built ++ k) v s
    ∙ split_quoted (((built ++ k) ++ b'=' ∷ []) ++ b'"' ∷ []) v (b'"' ∷ s) hv
    ∙ split_closed ((((built ++ k) ++ b'=' ∷ []) ++ b'"' ∷ []) ++ v) s
    ∙ ap (λ (t : Str). split_loop false t s) (joined built k v)

nonempty : (built : Str) (k s : Str) (c : ℕ) → is_empty (built ++ (k ++ (c ∷ s))) ≡ false
nonempty [] [] s c = refl
nonempty [] (x ∷ k) s c = refl
nonempty (x ∷ built) k s c = refl

-- What starts and ends with a visible byte of ASCII.
abbrev Visible : ℕ → Type 0
Visible c = (33 ≤ c) × (c ≤ 126)

abbrev pub Tidy : Str → Type 0
Tidy s =
    ((a : ℕ) × (m : Str) × (s ≡ a ∷ m) × Visible a)
    × ((m : Str) × (b : ℕ) × (s ≡ m ++ b ∷ []) × Visible b)

abbrev pub ParamOk : Param → Type 0
ParamOk p = Plain p.0 × Tidy p.0 × Quoteless p.1

-- The parts of the rest, each after its space.
abbrev pub rest_parts : List Param → List Str
rest_parts [] = []
rest_parts (p ∷ ps) = (b' ' ∷ render_onto p []) ∷ rest_parts ps

pub split_rest :
    (built : Str) (p : Param) (ps : List Param)
    → All ParamOk (p ∷ ps)
    → split_loop false built (render_onto p (render_rest ps))
      ≡ (built ++ render_onto p []) ∷ rest_parts ps
split_rest built (k, v) [] ((hk, tk, hv), h) =
    split_render built k v [] hk hv
    ∙ split_ended (built ++ render_onto (k, v) [])
        (nonempty built k (b'"' ∷ (v ++ (b'"' ∷ []))) b'=')
split_rest built (k, v) (q ∷ ps) ((hk, tk, hv), h) =
    split_render built k v (render_rest (q ∷ ps)) hk hv
    ∙ split_next (built ++ render_onto (k, v) []) (render_onto q (render_rest ps))
    ∙ ap (λ (l : List Str). (built ++ render_onto (k, v) []) ∷ l) (split_rest (b' ' ∷ []) q ps h)
