-- ===== src/Cpu/Level.antt =====
-- macos/CPU.cpp: the level of a load and how a core's line is displayed.
use cctop.Prelude.{ℕ, zero, suc, ◌≤◌, ◌≡◌, refl, ◌∙◌, true, List, [], ◌∷◌, arith}
use cctop.Prelude.Int.{ℤ, pos, negsuc}
use cctop.Terminal.{Double, Env, lit, chr}
use cctop.Console.{Console, printed}
use cctop.Console.Lines.{line_laws, printed-print, printed-wprint}
use cctop.Cpu.Core.{CpuCore}
use cctop.Cpu.Print.{
  render_level, render_color, dot_cell, render_dot, level_of, print_history, print_row, dot,
}

module _ ⦃env : Env⦄ where
  -- The levels are those of the eight glyphs.
  pub level_of-le : (busy : Double) → level_of busy ≤ 7
  unfolding level_of
  level_of-le busy = ground arith

  -- A load that is below every bound that another is below has no higher level.
  pub level_of_mono :
      (x y : Double)
      → ((bound : Double) → env.lt y bound ≡ true → env.lt x bound ≡ true)
      → level_of x ≤ level_of y
  unfolding level_of
  level_of_mono x y below = ground (
    arith,
    below (lit 125 1),
    below (lit 250 1),
    below (lit 375 1),
    below (lit 500 1),
    below (lit 625 1),
    below (lit 750 1),
    below (lit 875 1),
  )

  printed-render_level : (n : ℕ) (c : Console) → printed (render_level n c) ≡ printed c
  unfolding render_level
  printed-render_level zero c = simp line_laws
  printed-render_level (suc zero) c = simp line_laws
  printed-render_level (suc (suc zero)) c = simp line_laws
  printed-render_level (suc (suc (suc zero))) c = simp line_laws
  printed-render_level (suc (suc (suc (suc zero)))) c = simp line_laws
  printed-render_level (suc (suc (suc (suc (suc zero))))) c = simp line_laws
  printed-render_level (suc (suc (suc (suc (suc (suc zero)))))) c = simp line_laws
  printed-render_level (suc (suc (suc (suc (suc (suc (suc zero))))))) c = simp line_laws
  printed-render_level _ c = simp line_laws

  printed-render_color : (level : ℤ) (c : Console) → printed (render_color level c) ≡ printed c
  unfolding render_color
  printed-render_color (pos n) c = printed-render_level n c
  printed-render_color (negsuc n) c = simp line_laws

  printed-dot_cell : (level : ℤ) (c : Console) → printed (dot_cell level c) ≡ printed c
  unfolding dot_cell
  printed-dot_cell (pos n) c =
      ground (arith, printed-print c " " [], printed-wprint c "%lc" (chr (dot n) ∷ []))
  printed-dot_cell (negsuc n) c = simp line_laws

  printed-render_dot : (level : ℤ) (c : Console) → printed (render_dot level c) ≡ printed c
  unfolding render_dot
  printed-render_dot level c = simp (line_laws, printed-dot_cell, printed-render_color)

  printed-print_history : (h : List ℤ) (c : Console) → printed (print_history h c) ≡ printed c
  unfolding print_history
  printed-print_history [] c = refl
  printed-print_history (i ∷ is) c =
      printed-print_history is _ ∙ simp (line_laws, printed-render_color, printed-render_dot)

  pub printed-print_row :
      (core : CpuCore) (c : Console) → printed (print_row core c) ≡ suc (printed c)
  unfolding print_row
  printed-print_row core c =
      simp (line_laws, printed-render_color, printed-render_dot, printed-print_history)
