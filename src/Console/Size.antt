-- ===== src/Console/Size.antt =====
-- lib/Console.cpp: `humanSize`, a byte count as text with a unit.
use cctop.Prelude.{ℕ, zero, suc, ◌+◌, ◌/◌, String, List, [], ◌∷◌, ltb, if◌then◌else◌, get_or}
use cctop.Terminal.{Double, Text, lit, of_u64, div, real, str}
use cctop.Console.{text}

abbrev pub suffix : List String
suffix = "B" ∷ "KB" ∷ "MB" ∷ "GB" ∷ "TB" ∷ []

-- The loop, with `4 - i` rounds left at most: i and dblBytes at the end.
unfoldable pub size_loop : (left i bytes : ℕ) → Double → ℕ × Double
size_loop zero i bytes dbl = (i, dbl)
size_loop (suc left) i bytes dbl =
    let rest = size_loop left (i + 1) (bytes / 1024) (div (of_u64 bytes) (lit 1024 0)) in
    if ltb 0 (bytes / 1024) then rest else (i, dbl)

unfoldable pub scaled : ℕ → ℕ × Double
unfolding size_loop
scaled bytes = if ltb 1024 bytes then size_loop 4 0 bytes (of_u64 bytes) else (0, of_u64 bytes)

-- What `snprintf` formats; the buffer and its size are the caller's.
unfoldable pub human_size : ℕ → Text
unfolding scaled
human_size bytes =
    let (i, dbl) = scaled bytes in text "%.02lf %s" (real dbl ∷ str (get_or suffix i "") ∷ [])
