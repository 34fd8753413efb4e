-- ===== src/Tests/Connecting.antt =====
-- A client that asks for channels 2 and 0 of a device with three, and the answer.
use pm_lab_tools.Prelude.{ℕ, List, [], ◌∷◌}
use pm_lab_tools.Utils.{Answer, moved, interrupted}

abbrev pub channels : List ℕ
channels = 2 ∷ 0 ∷ []

abbrev pub in_four : List Answer
in_four = moved 1 ∷ moved 3 ∷ []

abbrev pub in_eight : List Answer
in_eight = interrupted ∷ moved 8 ∷ []

abbrev pub in_seventeen : List Answer
in_seventeen = moved 16 ∷ moved 1 ∷ []
