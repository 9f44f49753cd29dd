-- ===== src/Text/Tests.antt =====
-- A value of a header between blanks.
use sockify.Prelude.{refl, ◌≡◌, codes}
use sockify.Text.{is_blank, trim_left, trim_right, trim_span}

trim_value : trim_span (codes "  keep-alive, Upgrade ") ≡ codes "keep-alive, Upgrade"
unfolding trim_span trim_left trim_right is_blank
trim_value = refl
