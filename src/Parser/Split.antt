-- ===== src/Parser/Split.antt =====
-- lib/Parser.cpp: one call of `Line::get_token`.
use mathlib.Core.List.{append-nil}
use cctop.Prelude.{
  ℕ, ◌≢◌, ◌⊎◌, true, false, Option, none, some, [], ◌∷◌, ◌++◌, ◌≡◌, refl, ap, ◌∙◌, inl, inr, arith,
  Bool-cases, ◌==◌,
}
use cctop.Parser.{Bytes, Line, is_blank, skip_blanks, take_word, token_at, get_token}

-- Every byte has the property.
abbrev pub All : (ℕ → Type 0) → Bytes → Type 0
All P [] = Unit
All P (b ∷ bs) = P b × All P bs

abbrev pub NoSpace : Bytes → Type 0
NoSpace = All (λ b. b ≢ b' ')

-- A space or a tab.
abbrev pub Blank : ℕ → Type 0
Blank b = (b ≡ b' ') ⊎ (b ≡ b'\t')

abbrev pub NoTabFirst : Bytes → Type 0
NoTabFirst [] = Unit
NoTabFirst (b ∷ _) = b ≢ b'\t'

byte-Blank : (b : ℕ) → is_blank b ≡ true → Blank b
byte-Blank b h = ground (arith, h)

plain_byte : (b : ℕ) → is_blank b ≡ false → b ≢ b'\t'
plain_byte b h = λ e. ground (arith, h, e)

-- The blanks that are skipped, then what is left, which begins with no blank.
abbrev pub StartsPlain : Bytes → Type 0
StartsPlain [] = Unit
StartsPlain (b ∷ _) = is_blank b ≡ false

skip_blanks_lem :
    (bs : Bytes)
    → (blanks : Bytes) × (bs ≡ blanks ++ skip_blanks bs)
      × All Blank blanks
      × StartsPlain (skip_blanks bs)
unfolding skip_blanks
skip_blanks_lem [] = ([], refl, tt, tt)
skip_blanks_lem (b ∷ bs) = elim (Bool-cases (is_blank b)) [
  | inl blank ↦
      let (blanks, split, all, plain) = skip_blanks_lem bs in
      rw blank (b ∷ blanks, ap (◌∷◌ b) split, (byte-Blank b blank, all), plain)
  | inr plain ↦ rw plain ([], refl, tt, plain)
]

-- What stands behind a word is empty or begins with a space.
abbrev pub StartsSpace : Bytes → Type 0
StartsSpace [] = Unit
StartsSpace (b ∷ _) = b ≡ b' '

take_word_lem :
    (bs : Bytes)
    → let (word, rest) = take_word bs in (bs ≡ word ++ rest) × NoSpace word × StartsSpace rest
unfolding take_word
take_word_lem [] = (refl, tt, tt)
take_word_lem (b ∷ bs) = ground (arith, take_word_lem bs)

-- What `get_token` returns for the bytes that the pointer is at.
abbrev pub TokenOf : Bytes → Bytes → Option Bytes → Type 0
TokenOf before after none = All Blank before × (after ≡ [])
TokenOf before after (some word) =
    (blanks : Bytes) × (before ≡ blanks ++ (word ++ after))
    × All Blank blanks
    × (word ≢ [])
    × NoSpace word
    × NoTabFirst word
    × StartsSpace after

word-ne-nil : (b : ℕ) (bs : Bytes) → is_blank b ≡ false → (take_word (b ∷ bs)).0 ≢ []
unfolding take_word
word-ne-nil b bs h = λ e. ground arith

NoTabFirst-word : (b : ℕ) (bs : Bytes) → is_blank b ≡ false → NoTabFirst (take_word (b ∷ bs)).0
unfolding take_word
NoTabFirst-word b bs h = elim (Bool-cases (b == b' ')) [
  | inl e ↦ rw e tt
  | inr e ↦ rw e (plain_byte b h)
]

token_at-TokenOf :
    (blanks s before : Bytes)
    → before ≡ blanks ++ s
    → All Blank blanks
    → StartsPlain s
    → let (after, tok) = token_at s in TokenOf before after tok
unfolding token_at
token_at-TokenOf blanks [] before e all plain = (rw (e, append-nil) all, refl)
token_at-TokenOf blanks (b ∷ bs) before e all plain =
    let (split, no_space, starts) = take_word_lem (b ∷ bs) in
    (
      blanks,
      e ∙ ap (◌++◌ blanks) split,
      all,
      word-ne-nil b bs plain,
      no_space,
      NoTabFirst-word b bs plain,
      starts,
    )

-- A call of `get_token` skips spaces and tabs and cuts the text into the token and what is left: the
-- token is not empty, holds no space and begins with no tab, and what is left is empty or begins with a space. There is
-- no token only if nothing but blanks was left.
pub get_token_lem : (l : Line) → let (l', tok) = get_token l in TokenOf l.token l'.token tok
unfolding get_token
get_token_lem l =
    let (blanks, split, all, plain) = skip_blanks_lem l.token in
    token_at-TokenOf blanks (skip_blanks l.token) l.token split all plain
