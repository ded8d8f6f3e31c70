-- ===== src/Parser/Memory.antt =====
-- lib/Parser.cpp: a Parser frees what it has allocated, once.
use cctop.Prelude.{
  ℕ, suc, ◌≡◌, refl, ap, Bool, Option, none, some, List, [], ◌∷◌, if◌then◌else◌, arith, length,
  ◌++◌, ◌∙◌,
}
use cctop.Parser.{Bytes, Line, Parser, get_token, next, parser_token}
use cctop.Parser.Store.{
  Heap, alloc, OwnedLine, OwnedToken, OwnedParser, open_owned, free_line, free_token, read_line,
  next_owned, keep_token, read_token, token_owned, destroy, Op, next_line, get_one, run,
}
use cctop.Parser.Blocks.{Owns, free-Owns, alloc-Owns, leak-Owns, Owns-swap, Owns-last}

abbrev line_blocks : Option OwnedLine → List ℕ
line_blocks none = []
line_blocks (some l) = l.chars ∷ l.object ∷ []

abbrev token_blocks : Option OwnedToken → List ℕ
token_blocks none = []
token_blocks (some t) = t.chars ∷ []

abbrev blocks : OwnedParser → List ℕ
blocks p = line_blocks p.line ++ (token_blocks p.token ++ p.filename ∷ [])

-- The Parser that clients see.
abbrev pub forget : OwnedParser → Parser
forget p = record {
  file = p.file;
  line = elim p.line [ none ↦ none | some l ↦ some l.line ];
  token = elim p.token [ none ↦ none | some t ↦ some t.token ];
}

free_line-Owns :
    (l : Option OwnedLine) (bs : List ℕ) (leaks : ℕ) (h : Heap)
    → Owns (line_blocks l ++ bs) leaks h
    → (h' : Heap) × (free_line l h ≡ some h') × Owns bs leaks h'
unfolding free_line
free_line-Owns none bs leaks h o = (h, refl, o)
free_line-Owns (some l) bs leaks h o =
    let (h1, done1, o1) = free-Owns l.chars (l.object ∷ bs) leaks h o in
    let (h2, done2, o2) = free-Owns l.object bs leaks h1 o1 in (h2, rw (done1, free_line) done2, o2)

free_token-Owns :
    (t : Option OwnedToken) (bs : List ℕ) (leaks : ℕ) (h : Heap)
    → Owns (token_blocks t ++ bs) leaks h
    → (h' : Heap) × (free_token t h ≡ some h') × Owns bs leaks h'
unfolding free_token
free_token-Owns none bs leaks h o = (h, refl, o)
free_token-Owns (some t) bs leaks h o = free-Owns t.chars bs leaks h o

-- After `next`, a line that was read is owned; a buffer that was not filled is lost.
abbrev Nexted : OwnedParser → ℕ → (OwnedParser × Heap) × Bool → Type 0
Nexted p leaks ((p', h), more) =
    Owns (blocks p') (if more then leaks else suc leaks) h × ((forget p', more) ≡ next (forget p))

read_line-Nexted :
    (p : OwnedParser) (file : List Bytes) (chars leaks : ℕ) (h : Heap)
    → Owns (chars ∷ token_blocks p.token ++ p.filename ∷ []) leaks h
    → Nexted (record p { file = file }) leaks (read_line (record p { file = file }) (chars, h))
unfolding read_line next
read_line-Nexted p [] chars leaks h o =
    (leak-Owns chars (token_blocks p.token ++ p.filename ∷ []) leaks h o, refl)
read_line-Nexted p (l ∷ ls) chars leaks h o = (
  Owns-swap ((alloc h).0 ∷ []) (chars ∷ []) (token_blocks p.token ++ p.filename ∷ []) leaks _
      (alloc-Owns (chars ∷ token_blocks p.token ++ p.filename ∷ []) leaks h o),
  refl,
)

next_owned-Nexted :
    (p : OwnedParser) (leaks : ℕ) (h : Heap)
    → Owns (blocks p) leaks h
    → (r : (OwnedParser × Heap) × Bool) × (next_owned (p, h) ≡ some r) × Nexted p leaks r
unfolding next_owned
next_owned-Nexted p leaks h o =
    let rest = token_blocks p.token ++ p.filename ∷ [] in
    let (h1, done, o1) = free_line-Owns p.line rest leaks h o in
    (
      read_line p (alloc h1),
      rw (done, next_owned) refl,
      read_line-Nexted p p.file (alloc h1).0 leaks (alloc h1).1 (alloc-Owns rest leaks h1 o1),
    )

-- After `get_token`, the token that it returns is owned.
abbrev Tokened : OwnedParser → ℕ → OwnedParser × Heap → Type 0
Tokened p leaks (p', h) =
    Owns (blocks p') leaks h × ((forget p', (forget p').token) ≡ parser_token (forget p))

keep_token-Tokened :
    (p : OwnedParser) (l : OwnedLine) (leaks : ℕ) (h : Heap)
    → Owns (l.chars ∷ l.object ∷ p.filename ∷ []) leaks h
    → (r : Line × Option Bytes)
    → let r' = keep_token (record p { line = some l }) l r h in
      Owns (blocks r'.0) leaks r'.1
      × ◌≡◌ {A = Parser × Option Bytes}
          (forget r'.0, (forget r'.0).token)
          (record { file = p.file; line = some r.0; token = r.1 }, r.1)
unfolding keep_token
keep_token-Tokened p l leaks h o (line, none) = (o, refl)
keep_token-Tokened p l leaks h o (line, some t) =
    let ids = l.chars ∷ l.object ∷ [] in
    (
      Owns-swap ((alloc h).0 ∷ []) ids (p.filename ∷ []) leaks (alloc h).1
          (alloc-Owns (l.chars ∷ l.object ∷ p.filename ∷ []) leaks h o),
      refl,
    )

read_token-Tokened :
    (p : OwnedParser) (line : Option OwnedLine) (leaks : ℕ) (h : Heap)
    → Owns (line_blocks line ++ p.filename ∷ []) leaks h
    → Tokened (record p { line = line }) leaks (read_token (record p { line = line }) h)
unfolding read_token parser_token
read_token-Tokened p none leaks h o = (o, refl)
read_token-Tokened p (some l) leaks h o = keep_token-Tokened p l leaks h o (get_token l.line)

token_owned-Tokened :
    (p : OwnedParser) (leaks : ℕ) (h : Heap)
    → Owns (blocks p) leaks h
    → (r : OwnedParser × Heap) × (token_owned (p, h) ≡ some r) × Tokened p leaks r
unfolding token_owned
token_owned-Tokened p leaks h o =
    let swapped =
      Owns-swap (line_blocks p.line) (token_blocks p.token) (p.filename ∷ []) leaks h o in
    let (h1, done, o1) =
      free_token-Owns p.token (line_blocks p.line ++ p.filename ∷ []) leaks h swapped in
    (read_token p h1, rw (done, token_owned) refl, read_token-Tokened p p.line leaks h1 o1)

-- The calls on the Parser that clients see, with the number of those for which there was no line.
unfoldable pub seen : List Op → Parser × ℕ → Parser × ℕ
seen [] s = s
seen (next_line ∷ ops) (p, ends) =
    let (p, more) = next p in seen ops (p, if more then ends else suc ends)
seen (get_one ∷ ops) (p, ends) = seen ops ((parser_token p).0, ends)

run-Owns :
    (ops : List Op) (p : OwnedParser) (h : Heap) (ends : ℕ)
    → Owns (blocks p) ends h
    → (p' : OwnedParser) × (h' : Heap) × (ends' : ℕ) × (run ops ((p, h), ends)
        ≡ some ((p', h'), ends'))
      × Owns (blocks p') ends' h'
      × ((forget p', ends') ≡ seen ops (forget p, ends))
unfolding run seen
run-Owns [] p h ends o = (p, h, ends, refl, o, refl)
run-Owns (next_line ∷ ops) p h ends o =
    let (r, done, (o1, same)) = next_owned-Nexted p ends h o in
    let (p2, h2, ends2, done2, o2, same2) =
      run-Owns ops r.0.0 r.0.1 (if r.1 then ends else suc ends) o1 in
    (
      p2,
      h2,
      ends2,
      rw (done, run) done2,
      o2,
      same2 ∙ ap (λ s. seen ops (s.0, if s.1 then ends else suc ends)) same,
    )
run-Owns (get_one ∷ ops) p h ends o =
    let (r, done, (o1, same)) = token_owned-Tokened p ends h o in
    let (p2, h2, ends2, done2, o2, same2) = run-Owns ops r.0 r.1 ends o1 in
    (p2, h2, ends2, rw (done, run) done2, o2, same2 ∙ ap (λ s. seen ops (s.0, ends)) same)

destroy-Owns :
    (p : OwnedParser) (leaks : ℕ) (h : Heap)
    → Owns (blocks p) leaks h
    → (h' : Heap) × (destroy (p, h) ≡ some h') × (length h'.live ≡ leaks)
unfolding destroy
destroy-Owns p leaks h o =
    let rest = line_blocks p.line ++ (token_blocks p.token ++ []) in
    let first = Owns-last (line_blocks p.line) (token_blocks p.token) p.filename leaks h o in
    let (h1, done1, o1) = free-Owns p.filename rest leaks h first in
    let (h2, done2, o2) = free_line-Owns p.line (token_blocks p.token ++ []) leaks h1 o1 in
    let (h3, done3, o3) = free_token-Owns p.token [] leaks h2 o2 in
    (h3, rw (done1, destroy) (rw done2 done3), omega (arith, o3.number))

-- Whatever calls a client makes of a Parser that it has opened: none of them frees a block that is not
-- live, they answer as they do without regard to memory, and the destructor after them frees all that
-- is left but one block for each call of `next` for which there was no line.
pub parser_frees :
    (ls : List Bytes) (ops : List Op)
    → let (p, h) = open_owned ls (record { fresh = 0; live = [] }) in
      (p' : OwnedParser) × (h' : Heap) × (ends : ℕ) × (left : Heap) × (run ops ((p, h), 0)
        ≡ some ((p', h'), ends))
      × ((forget p', ends) ≡ seen ops (forget p, 0))
      × (destroy (p', h') ≡ some left)
      × (length left.live ≡ ends)
unfolding open_owned
parser_frees ls ops =
    let empty : Heap = record { fresh = 0; live = [] } in
    let (p, h) = open_owned ls empty in
    let opened =
      alloc-Owns [] 0 empty (record { counted = λ k. omega arith; number = omega arith }) in
    let (p', h', ends, done, o, same) = run-Owns ops p h 0 opened in
    let (left, freed, few) = destroy-Owns p' ends h' o in
    (p', h', ends, left, done, same, freed, few)
