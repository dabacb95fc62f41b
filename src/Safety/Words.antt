-- ===== src/Safety/Words.antt =====
-- What safety.rs uses of `str`: a text is the list of its code points.
pub mod Split
use Prim.Native.Char.{code}
use Prim.Native.String.{String}
use tunshell_mcp_agents.Prelude.{
  ℕ, ◌+◌, ◌≡◌, refl, ap, ◌↔◌, ◌++◌, List, [], ◌∷◌, Option, none, some, Bool, true, false, ◌&&◌,
  ◌||◌, not, subst, if◌then◌else◌, nat_beq, nat_beq_iff, leb, any, select, Eq, ◌==◌, arith,
}

abbrev pub Text : Type 0
Text = List ℕ

-- The code points of a literal.
abbrev pub text : String → Text
text String.[] = []
text (String.◌∷◌ c s) = code c ∷ text s

-- `len`: the bytes of the UTF-8 encoding.
abbrev pub byte_len : Text → ℕ
byte_len [] = 0
byte_len (c ∷ s) =
    let rest = byte_len s in
    if leb c 127
    then rest + 1
    else if leb c 2047
    then rest + 2
    else if leb c 65535
    then rest + 3
    else rest + 4

abbrev pub text_beq : Text → Text → Bool
text_beq [] [] = true
text_beq [] (d ∷ t) = false
text_beq (c ∷ s) [] = false
text_beq (c ∷ s) (d ∷ t) = nat_beq c d && text_beq s t

tail : Text → Text
tail [] = []
tail (c ∷ s) = s

text_beq-path : (s t : Text) → text_beq s t ≡ true → s ≡ t
text_beq-path [] [] h = refl
text_beq-path [] (d ∷ t) h = absurd (ground arith)
text_beq-path (c ∷ s) [] h = absurd (ground arith)
text_beq-path (c ∷ s) (d ∷ t) h =
    let same = text_beq-path s t (ground arith) in
    let here : c ≡ d = ground arith in cc (same, here)

text_beq_refl : (s : Text) → text_beq s s ≡ true
text_beq_refl [] = refl
text_beq_refl (c ∷ s) = ground (arith, text_beq_refl s)

pub text_beq_iff : (s t : Text) → (text_beq s t ≡ true) ↔ (s ≡ t)
text_beq_iff s t = (text_beq-path s t, λ p. subst (λ u. text_beq s u ≡ true) p (text_beq_refl s))

instance abbrev pub text_eq : Eq Text
text_eq = record { beq = text_beq; beq_iff = text_beq_iff }

-- `contains` of a slice of words.
abbrev pub is_in : List Text → Text → Bool
is_in ws w = any (λ v. v == w) ws

abbrev pub starts_with : Text → Text → Bool
starts_with s [] = true
starts_with [] (d ∷ t) = false
starts_with (c ∷ s) (d ∷ t) = nat_beq c d && starts_with s t

-- `haystack.contains(needle)`
abbrev pub contains : Text → Text → Bool
contains [] t = starts_with [] t
contains (c ∷ s) t = starts_with (c ∷ s) t || contains s t

abbrev pub contains_char : Text → ℕ → Bool
contains_char s c = any (λ d. nat_beq d c) s

abbrev pub is_empty : Text → Bool
is_empty [] = true
is_empty (c ∷ s) = false

-- The Unicode property `White_Space`.
unfoldable pub is_whitespace : ℕ → Bool
is_whitespace c =
    (leb 9 c && leb c 13)
    || nat_beq c 32
    || nat_beq c 133
    || nat_beq c 160
    || nat_beq c 5760
    || (leb 8192 c && leb c 8202)
    || nat_beq c 8232
    || nat_beq c 8233
    || nat_beq c 8239
    || nat_beq c 8287
    || nat_beq c 12288

abbrev pub onto_first : ℕ → List Text → List Text
onto_first c [] = (c ∷ []) ∷ []
onto_first c (w ∷ ws) = (c ∷ w) ∷ ws

-- `split(pred)`: the parts between the characters that pass, one more than those.
abbrev pub split : (ℕ → Bool) → Text → List Text
split p [] = [] ∷ []
split p (c ∷ s) = let rest = split p s in if p c then [] ∷ rest else onto_first c rest

unfoldable pub split_whitespace : Text → List Text
unfolding is_whitespace
split_whitespace s = select (λ w. not (is_empty w)) (split is_whitespace s)

unfoldable pub trim_start : Text → Text
unfolding is_whitespace
trim_start [] = []
trim_start (c ∷ s) = let rest = trim_start s in if is_whitespace c then rest else c ∷ s

unfoldable pub trim_end : Text → Text
unfolding is_whitespace
trim_end [] = []
trim_end (c ∷ s) =
    let rest = trim_end s in if is_empty rest && is_whitespace c then [] else c ∷ rest

unfoldable pub trim : Text → Text
trim s = trim_end (trim_start s)

abbrev last_or : Text → List Text → Text
last_or w [] = w
last_or w (v ∷ vs) = last_or v vs

-- `token.rsplit('/').next()`
unfoldable pub basename : Text → Text
basename token = last_or token (split (λ c. nat_beq c 47) token)
