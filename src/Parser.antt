-- ===== src/Parser.antt =====
-- lib/Parser.h and lib/Parser.cpp: reading a file by lines and blank-separated tokens. A C string is
-- the list of its bytes up to the terminator; a pointer into it is the rest from there on. The
-- memory of a Parser is in Store.
pub mod Tokens
pub mod Split
pub mod Store
pub mod Blocks
pub mod Memory
use cctop.Prelude.{
  ℕ, zero, suc, ◌-◌, ◌+◌, ◌^◌, ◌%◌, Bool, true, false, ◌||◌, Option, none, some, List, [], ◌∷◌,
  ◌==◌, if◌then◌else◌, length,
}
use cctop.Prelude.Int.{ℤ, pos, negsuc, pos_part, neg_part}
use cctop.Prelude.Words.{u64_mod}

abbrev pub Bytes : Type 0
Bytes = List ℕ

-- The bytes before the first NUL.
unfoldable pub c_string : Bytes → Bytes
c_string [] = []
c_string (b ∷ bs) = let rest = c_string bs in if b == 0 then [] else b ∷ rest

-- `strlen` and the overwriting of a last newline.
unfoldable pub chomp : Bytes → Bytes
chomp [] = []
chomp (b ∷ []) = if b == b'\n' then [] else b ∷ []
chomp (b ∷ b' ∷ bs) = b ∷ chomp (b' ∷ bs)

pub record Line : Type 0 where
  pub line : Bytes
  pub token : Bytes
  pub len : ℕ

-- The constructor of Line.
unfoldable pub line_of : Bytes → Line
line_of l = let s = chomp (c_string l) in record { line = s; token = s; len = length s }

abbrev pub is_blank : ℕ → Bool
is_blank b = b == b' ' || b == 9

unfoldable pub skip_blanks : Bytes → Bytes
skip_blanks [] = []
skip_blanks (b ∷ bs) = let rest = skip_blanks bs in if is_blank b then rest else b ∷ bs

-- The token up to a space or the end (a tab does not end it), and the rest.
unfoldable pub take_word : Bytes → Bytes × Bytes
take_word [] = ([], [])
take_word (b ∷ bs) =
    let (word, rest) = take_word bs in if b == b' ' then ([], b ∷ bs) else (b ∷ word, rest)

-- `Line::get_token`, where the pointer stands after the blanks
unfoldable pub token_at : Bytes → Bytes × Option Bytes
token_at [] = ([], none)
token_at (b ∷ bs) = let (word, rest) = take_word (b ∷ bs) in (rest, some word)

unfoldable pub get_token : Line → Line × Option Bytes
get_token l = let (rest, tok) = token_at (skip_blanks l.token) in (record l { token = rest }, tok)

-- `file` has the lines that `getline` has yet to return.
pub record Parser : Type 0 where
  pub file : List Bytes
  pub line : Option Line
  pub token : Option Bytes

-- The constructor; `none` is the exit with status 1 for a file that cannot be opened.
unfoldable pub open_file : Option (List Bytes) → Option Parser
open_file none = none
open_file (some ls) = some (record { file = ls; line = none; token = none })

unfoldable pub next : Parser → Parser × Bool
next p = elim p.file [
  | [] ↦ (record p { line = none }, false)
  | l ∷ ls ↦ (record p { file = ls; line = some (line_of l) }, true)
]

unfoldable pub parser_token : Parser → Parser × Option Bytes
parser_token p = elim p.line [
  | none ↦ (record p { token = none }, none)
  | some l ↦ let (l', tok) = get_token l in (record p { line = some l'; token = tok }, tok)
]

-- `atol` is the C library's; the result is converted from `long` to `uint64_t`.
unfoldable pub get_long : (atol : Bytes → ℤ) → Parser → Parser × ℕ
get_long atol p =
    let (p', tok) = parser_token p in
    (
      p',
      elim tok [ none ↦ 0 | some t ↦ (pos_part (atol t) + u64_mod - neg_part (atol t)) % u64_mod ],
    )
