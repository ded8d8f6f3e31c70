-- ===== src/Parser/Store.antt =====
-- lib/Parser.cpp: the memory of a Parser. A block is a number that is never used again; which of `new`,
-- `new[]` and `malloc` it comes from is not modelled. `free` of a block that is not live is `none`.
use cctop.Prelude.{
  ℕ, suc, Bool, true, false, Option, none, some, List, [], ◌∷◌, ◌==◌, if◌then◌else◌,
}
use cctop.Parser.{Bytes, Line, line_of, get_token}

-- A step that has failed ends the chain.
infixl 5 ◌>>=◌
abbrev pub ◌>>=◌ {ℓ} : {A B : Type ℓ} → Option A → (A → Option B) → Option B
none >>= f = none
some a >>= f = f a

pub record Heap : Type 0 where
  pub fresh : ℕ
  pub live : List ℕ

unfoldable pub alloc : Heap → ℕ × Heap
alloc h = (h.fresh, record { fresh = suc h.fresh; live = h.fresh ∷ h.live })

unfoldable pub take_out : ℕ → List ℕ → Option (List ℕ)
take_out k [] = none
take_out k (b ∷ bs) =
    if b == k then some bs else (elim (take_out k bs) [ none ↦ none | some rest ↦ some (b ∷ rest) ])

unfoldable pub free : ℕ → Heap → Option Heap
free k h = elim (take_out k h.live) [ none ↦ none | some bs ↦ some (record h { live = bs }) ]

-- A Line that is owned, with the block of its object and that of its characters.
pub record OwnedLine : Type 0 where
  pub line : Line
  pub object : ℕ
  pub chars : ℕ

pub record OwnedToken : Type 0 where
  pub token : Bytes
  pub chars : ℕ

-- A Parser with its blocks; `filename` is that of the copy of the name.
pub record OwnedParser : Type 0 where
  pub file : List Bytes
  pub filename : ℕ
  pub line : Option OwnedLine
  pub token : Option OwnedToken

unfoldable pub open_owned : List Bytes → Heap → OwnedParser × Heap
open_owned ls h =
    let (name, h) = alloc h in (record { file = ls; filename = name; line = none; token = none }, h)

-- `if (this->line) delete this->line;`, with the destructor of Line
unfoldable pub free_line : Option OwnedLine → Heap → Option Heap
free_line none h = some h
free_line (some l) h = do h ← free l.chars h; free l.object h

unfoldable pub free_token : Option OwnedToken → Heap → Option Heap
free_token none h = some h
free_token (some t) h = free t.chars h

-- `next` behind the `delete`. `getline` allocates a buffer also where it fails.
unfoldable pub read_line : OwnedParser → ℕ × Heap → (OwnedParser × Heap) × Bool
read_line p (chars, h) = elim p.file [
  | [] ↦ ((record p { line = none }, h), false)
  | l ∷ ls ↦
      let (object, h) = alloc h in
      (
        (
          record p {
            file = ls;
            line = some (record { line = line_of l; object = object; chars = chars });
          },
          h,
        ),
        true,
      )
]

unfoldable pub next_owned : OwnedParser × Heap → Option ((OwnedParser × Heap) × Bool)
next_owned (p, h) = do h ← free_line p.line h; some (read_line p (alloc h))

-- `get_token` behind the `delete`.
unfoldable pub keep_token :
    OwnedParser → OwnedLine → Line × Option Bytes → Heap → OwnedParser × Heap
keep_token p l (line, none) h =
    (record p { line = some (record l { line = line }); token = none }, h)
keep_token p l (line, some t) h =
    let (chars, h) = alloc h in
    (
      record p {
        line = some (record l { line = line });
        token = some (record { token = t; chars = chars });
      },
      h,
    )

unfoldable pub read_token : OwnedParser → Heap → OwnedParser × Heap
read_token p h = elim p.line [
  | none ↦ (record p { token = none }, h)
  | some l ↦ keep_token p l (get_token l.line) h
]

unfoldable pub token_owned : OwnedParser × Heap → Option (OwnedParser × Heap)
token_owned (p, h) = do h ← free_token p.token h; some (read_token p h)

-- The destructor.
unfoldable pub destroy : OwnedParser × Heap → Option Heap
destroy (p, h) = do h ← free p.filename h; h ← free_line p.line h; free_token p.token h

-- The calls that a client can make; `get_long` calls `get_token`.
pub data Op : Type 0 where
  next_line get_one : Op

-- Some calls, with the number of those for which there was no line.
unfoldable pub run : List Op → (OwnedParser × Heap) × ℕ → Option ((OwnedParser × Heap) × ℕ)
run [] s = some s
run (next_line ∷ ops) (o, ends) = do r ← next_owned o; run ops (r.0, if r.1 then ends else suc ends)
run (get_one ∷ ops) (o, ends) = do o ← token_owned o; run ops (o, ends)
