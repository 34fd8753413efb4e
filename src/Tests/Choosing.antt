-- ===== src/Tests/Choosing.antt =====
-- A command line that names two channels and something else.
use pm_lab_tools.Prelude.{ℕ, ◌≡◌, refl, some, List, [], ◌∷◌}
use pm_lab_tools.Protocol.{codes}
use pm_lab_tools.Client.Choice.{all_channels, parse_channels, parse_loop, named, channel_of, is_all}

abbrev line : List (List ℕ)
line = codes "pm5" ∷ codes "pm9" ∷ codes "ai1" ∷ []

abbrev zeros : List ℕ
zeros = 0 ∷ 0 ∷ 0 ∷ 0 ∷ 0 ∷ 0 ∷ 0 ∷ 0 ∷ []

-- A command line that spells its channels as README does.
readme_line : parse_channels (codes "AI0" ∷ codes "AI1" ∷ []) 8 all_channels zeros ≡ some (0, zeros)
unfolding parse_channels parse_loop channel_of is_all
readme_line = refl

named_in_line : named line ≡ 4 ∷ 1 ∷ []
unfolding named channel_of is_all
named_in_line = refl
