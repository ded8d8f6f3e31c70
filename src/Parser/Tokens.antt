-- ===== src/Parser/Tokens.antt =====
-- lib/Parser.cpp: the tokens of a whole line, by calls of `get_token` until there is none.
use cctop.Prelude.{
  ℕ, zero, suc, ◌<◌, ◌≢◌, Option, none, some, List, [], ◌∷◌, ◌++◌, ◌≡◌, refl, ap, arith, length,
  length-append,
}
use cctop.Parser.{Bytes, Line, skip_blanks, take_word, token_at, get_token}
use cctop.Parser.Split.{NoSpace, TokenOf, get_token_lem}

-- The tokens behind the pointer, in order; `none` if the fuel runs out first.
unfoldable pub tokens : ℕ → Line → Option (List Bytes)
tokens zero l = none
tokens (suc fuel) l =
    let (l', tok) = get_token l in
    elim tok [
      | none ↦ some []
      | some word ↦ elim (tokens fuel l') [ none ↦ none | some words ↦ some (word ∷ words) ]
    ]

-- A word as a caller may write it: not empty, no space, no tab in front.
abbrev pub IsWord : Bytes → Type 0
IsWord [] = ⊥
IsWord (b ∷ bs) = (b ≢ 9) × NoSpace (b ∷ bs)

abbrev pub AllWords : List Bytes → Type 0
AllWords [] = Unit
AllWords (w ∷ ws) = IsWord w × AllWords ws

-- The words with a space in front of each.
unfoldable pub joined : List Bytes → Bytes
joined [] = []
joined (w ∷ ws) = b' ' ∷ (w ++ joined ws)

abbrev at : Bytes → Line → Line
at s l = record l { token = s }

-- A word is taken up to the next space or the end.
take_word-append :
    (w : Bytes) (ws : List Bytes) → NoSpace w → take_word (w ++ joined ws) ≡ (w, joined ws)
unfolding take_word joined
take_word-append [] [] h = refl
take_word-append [] (v ∷ ws) h = refl
take_word-append (b ∷ w) ws h = ground (arith, take_word-append w ws h.1)

get_token-joined :
    (w : Bytes) (ws : List Bytes) (l : Line)
    → IsWord w
    → get_token (at (joined (w ∷ ws)) l) ≡ (at (joined ws) l, some w)
unfolding get_token joined skip_blanks token_at
get_token-joined [] ws l h = elim h [ ]
get_token-joined (b ∷ w) ws l (tab, h) = ground (arith, take_word-append (b ∷ w) ws h)

get_token-nil : (l : Line) → get_token (at (joined []) l) ≡ (at (joined []) l, none)
unfolding get_token joined skip_blanks token_at
get_token-nil l = refl

-- Words that are not empty, hold no space and begin with no tab, written with a space before each,
-- are read back, with one round more than there are words.
pub tokens-joined :
    (fuel : ℕ) (ws : List Bytes) (l : Line)
    → AllWords ws
    → length ws < fuel
    → tokens fuel (record l { token = joined ws }) ≡ some ws
unfolding tokens
tokens-joined zero ws l a h = absurd (omega arith)
tokens-joined (suc fuel) [] l a h = rw (get_token-nil l, tokens) refl
tokens-joined (suc fuel) (w ∷ ws) l (a, rest) h =
    ground (arith, get_token-joined w ws l a, tokens-joined fuel ws l rest)

TokenOf-shorter :
    (before after word : Bytes) → TokenOf before after (some word) → length after < length before
TokenOf-shorter before after [] (blanks, e, all, full, _, _, _) = absurd (full refl)
TokenOf-shorter before after (b ∷ w) (blanks, e, all, full, _, _, _) =
    omega (arith, ap length e, length-append blanks ((b ∷ w) ++ after), length-append (b ∷ w) after)

-- A token takes at least a byte, so as many rounds as there are bytes behind the pointer, and one,
-- read any line to the end.
pub tokens_total :
    (fuel : ℕ) (l : Line) → length l.token < fuel → (ws : List Bytes) × (tokens fuel l ≡ some ws)
unfolding tokens
tokens_total zero l h = absurd (omega arith)
tokens_total (suc fuel) l h = step (get_token l) (get_token_lem l) (tokens_total fuel)
  where
    step :
        (r : Line × Option Bytes)
        → TokenOf l.token r.0.token r.1
        → ((k : Line) → length k.token < fuel → (ws : List Bytes) × (tokens fuel k ≡ some ws))
        → (ws : List Bytes) × (elim r.1 as (λ _. Option (List Bytes)) [
          | none ↦ some []
          | some word ↦ elim (tokens fuel r.0) [ none ↦ none | some words ↦ some (word ∷ words) ]
        ]
            ≡ some ws)
    step (l', none) t rest = ([], refl)
    step (l', some word) t rest =
        let (ws, e) = rest l' (omega (arith, TokenOf-shorter l.token l'.token word t)) in
        (word ∷ ws, rw e)
