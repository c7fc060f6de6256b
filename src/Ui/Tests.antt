-- ===== src/Ui/Tests.antt =====
-- Painting on a terminal and to a pipe.
use whyslow.Base.{◌≡◌, refl, true, false, length}
use whyslow.Base.Text.{codes}
use whyslow.Ui.Paint.{paint, banner}

piped :
    paint (record { no_color_set = false; is_terminal = false }) (codes "2") (codes "x") ≡ codes "x"
unfolding paint
piped = refl

painted :
    length (paint (record { no_color_set = false; is_terminal = true }) (codes "2") (codes "x")) ≡ 9
unfolding paint
painted = refl

banner_height : length (banner (record { no_color_set = false; is_terminal = true })) ≡ 9
unfolding banner
banner_height = refl
