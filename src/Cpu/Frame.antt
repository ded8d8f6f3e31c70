-- ===== src/Cpu/Frame.antt =====
-- macos/CPU.cpp: a core's line does not touch the session of the console.
use cctop.Prelude.{ℕ, zero, suc, ◌≡◌, refl, ◌∙◌, List, [], ◌∷◌, arith}
use cctop.Prelude.Int.{ℤ, pos, negsuc}
use cctop.Terminal.{Env, chr}
use cctop.Console.{Console}
use cctop.Console.Frame.{frame_laws, ending-print, ending-wprint, ending}
use cctop.Cpu.Core.{CpuCore}
use cctop.Cpu.Print.{
  render_level, render_color, dot_cell, render_dot, print_history, print_row, dot,
}

module _ ⦃env : Env⦄ where
  ending-render_level : (n : ℕ) (c : Console) → ending (render_level n c) ≡ ending c
  unfolding render_level
  ending-render_level zero c = simp frame_laws
  ending-render_level (suc zero) c = simp frame_laws
  ending-render_level (suc (suc zero)) c = simp frame_laws
  ending-render_level (suc (suc (suc zero))) c = simp frame_laws
  ending-render_level (suc (suc (suc (suc zero)))) c = simp frame_laws
  ending-render_level (suc (suc (suc (suc (suc zero))))) c = simp frame_laws
  ending-render_level (suc (suc (suc (suc (suc (suc zero)))))) c = simp frame_laws
  ending-render_level (suc (suc (suc (suc (suc (suc (suc zero))))))) c = simp frame_laws
  ending-render_level _ c = simp frame_laws

  ending-render_color : (level : ℤ) (c : Console) → ending (render_color level c) ≡ ending c
  unfolding render_color
  ending-render_color (pos n) c = ending-render_level n c
  ending-render_color (negsuc n) c = simp frame_laws

  ending-dot_cell : (level : ℤ) (c : Console) → ending (dot_cell level c) ≡ ending c
  unfolding dot_cell
  ending-dot_cell (pos n) c =
      ground (arith, ending-print c " " [], ending-wprint c "%lc" (chr (dot n) ∷ []))
  ending-dot_cell (negsuc n) c = simp frame_laws

  ending-render_dot : (level : ℤ) (c : Console) → ending (render_dot level c) ≡ ending c
  unfolding render_dot
  ending-render_dot level c = simp (frame_laws, ending-dot_cell, ending-render_color)

  ending-print_history : (h : List ℤ) (c : Console) → ending (print_history h c) ≡ ending c
  unfolding print_history
  ending-print_history [] c = refl
  ending-print_history (i ∷ is) c =
      ending-print_history is _ ∙ simp (frame_laws, ending-render_color, ending-render_dot)

  pub ending-print_row : (core : CpuCore) (c : Console) → ending (print_row core c) ≡ ending c
  unfolding print_row
  ending-print_row core c =
      simp (frame_laws, ending-render_color, ending-render_dot, ending-print_history)
