-- ===== src/Ui/Paint.antt =====
-- whyslow-cli/src/ui.rs: painting a text, and the banner.
use whyslow.Base.{ℕ, ◌≡◌, Bool, false, ◌&&◌, not, List, [], ◌∷◌, ◌++◌, if◌then◌else◌}
use whyslow.Base.Text.{Text, codes}

-- What `color_enabled` asks: the variable `NO_COLOR`, and whether the output is a terminal.
pub record Terminal : Type 0 where
  pub no_color_set : Bool
  pub is_terminal : Bool

unfoldable pub color_enabled : Terminal → Bool
color_enabled t = not t.no_color_set && t.is_terminal

abbrev escape : ℕ
escape = 0x1b

unfoldable pub paint : Terminal → Text → Text → Text
unfolding color_enabled
paint t code s =
    if color_enabled t then escape ∷ b'[' ∷ code ++ b'm' ∷ s ++ escape ∷ codes "[0m" else s

module _ (t : Terminal) where
  abbrev pub bold : Text → Text
  bold = paint t (codes "1")

  abbrev pub dim : Text → Text
  dim = paint t (codes "2")

  abbrev pub bold_yellow : Text → Text
  bold_yellow = paint t (codes "1;93")

  abbrev pub bold_red : Text → Text
  bold_red = paint t (codes "1;91")

  abbrev pub magenta : Text → Text
  magenta = paint t (codes "1;95")

  abbrev pub cyan : Text → Text
  cyan = paint t (codes "1;96")

  abbrev pub green : Text → Text
  green = paint t (codes "1;92")

  abbrev pub bold_cyan : Text → Text
  bold_cyan = paint t (codes "1;96")

  abbrev pub blue : Text → Text
  blue = paint t (codes "1;94")

abbrev banner_colors : List Text
banner_colors =
    codes "1;91" ∷ codes "1;93" ∷ codes "1;92" ∷ codes "1;96" ∷ codes "1;94" ∷ codes "1;95" ∷ []

abbrev banner_lines : List Text
banner_lines =
    codes "           __               __"
    ∷ codes " _      __/ /_  __  _______/ /___ _      __"
    ∷ codes "| | /| / / __ \\/ / / / ___/ / __ \\ | /| / /"
    ∷ codes "| |/ |/ / / / / /_/ (__  ) / /_/ / |/ |/ /"
    ∷ codes "|__/|__/_/ /_/\\__, /____/_/\\____/|__/|__/"
    ∷ codes "             /____/                        "
    ∷ []

-- `lines.iter().zip(colors.iter().cycle())`: the colours start again when they run out.
paint_cycled : Terminal → List Text → List Text → List Text → List Text
paint_cycled t all [] rest = []
paint_cycled t [] (line ∷ lines) [] = []
paint_cycled t (c ∷ all) (line ∷ lines) [] = paint t c line ∷ paint_cycled t (c ∷ all) lines all
paint_cycled t all (line ∷ lines) (c ∷ rest) = paint t c line ∷ paint_cycled t all lines rest

-- The lines that `print_banner` prints.
unfoldable pub banner : Terminal → List Text
unfolding paint paint_cycled
banner t =
    ([] ∷ paint_cycled t banner_colors banner_lines banner_colors)
    ++ (codes "  "
        ++ bold t (codes "debug why a Linux process was slow — eBPF causal-chain tracing"))
      ∷ []
      ∷ []

-- Without a terminal, or with `NO_COLOR` set, a painted text is the text itself.
pub paint_plain : (t : Terminal) (code s : Text) → color_enabled t ≡ false → paint t code s ≡ s
unfolding paint
paint_plain t code s h = rw h
