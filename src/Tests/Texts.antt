-- ===== src/Tests/Texts.antt =====
-- The parser and byte counts.
use cctop.Parser.Memory.{forget, seen, parser_frees}
use cctop.Parser.Store.{Op, open_owned, get_one, OwnedParser, next_line, Heap, run, destroy}
use cctop.Prelude.{◌+◌, ◌-◌, ◌/◌, ◌^◌, ◌≤◌, ◌<◌, ◌≡◌, some, List, [], ◌∷◌, arith, ◌⊎◌, ℕ, length}
use cctop.Terminal.{lit, of_u64, div}
use cctop.Console.Size.{scaled}
use cctop.Console.Units.{scaled_lem}
use cctop.Parser.{Bytes, Line, get_token}
use cctop.Parser.Split.{TokenOf, get_token_lem}
use cctop.Parser.Tokens.{tokens, joined, AllWords, tokens-joined, tokens_total}

-- "  cpu 42"
abbrev sample_line : Line
sample_line = record {
  line = [];
  token = b' ' ∷ b' ' ∷ b'c' ∷ b'p' ∷ b'u' ∷ b' ' ∷ b'4' ∷ b'2' ∷ [];
  len = 8;
}

abbrev sample_words : List Bytes
sample_words = (b'c' ∷ b'p' ∷ b'u' ∷ []) ∷ (b'4' ∷ b'2' ∷ []) ∷ []

sample_words_lem : AllWords sample_words
sample_words_lem = omega arith

get_token_lem_example :
    TokenOf sample_line.token (get_token sample_line).0.token (get_token sample_line).1
get_token_lem_example = get_token_lem sample_line

tokens-joined_example :
    tokens 3 (record sample_line { token = joined sample_words }) ≡ some sample_words
tokens-joined_example = tokens-joined 3 sample_words sample_line sample_words_lem (omega arith)

tokens_total_example : (ws : List Bytes) × (tokens 9 sample_line ≡ some ws)
tokens_total_example = tokens_total 9 sample_line (omega arith)

scaled_lem_example :
    (1 ≤ (scaled 5000000).0)
    × ((scaled 5000000).0 ≤ 4)
    × (1024 ^ (scaled 5000000).0 ≤ 5000000)
    × (((scaled 5000000).0 ≡ 4) ⊎ (5000000 < 1024 ^ ((scaled 5000000).0 + 1)))
    × ((scaled 5000000).1 ≡ div (of_u64 (5000000 / 1024 ^ ((scaled 5000000).0 - 1))) (lit 1024 0))
scaled_lem_example = scaled_lem 5000000 (omega arith)

abbrev sample_ops : List Op
sample_ops = get_one ∷ next_line ∷ get_one ∷ get_one ∷ next_line ∷ next_line ∷ []

-- One line, `ab c`.
abbrev sample_file : List Bytes
sample_file = (97 ∷ 98 ∷ 32 ∷ 99 ∷ 10 ∷ []) ∷ []

parser_frees_example :
    let (p, h) = open_owned sample_file (record { fresh = 0; live = [] }) in
    (p' : OwnedParser) × (h' : Heap) × (ends : ℕ) × (left : Heap) × (run sample_ops ((p, h), 0)
      ≡ some ((p', h'), ends))
    × ((forget p', ends) ≡ seen sample_ops (forget p, 0))
    × (destroy (p', h') ≡ some left)
    × (length left.live ≡ ends)
parser_frees_example = parser_frees sample_file sample_ops
