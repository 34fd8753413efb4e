-- ===== src/Client/Choice/Outcome.antt =====
-- What `parse_channels` gives for any command line.
use pm_lab_tools.Prelude.{ℕ, ◌+◌, Option, none, some, List, ◌++◌, leb, if◌then◌else◌, length, drop}
use pm_lab_tools.Client.Choice.{all_channels, named, has_all}

-- What the loop gives, for a command line that names no more channels than there is room for.
abbrev outcome : List (List ℕ) → List ℕ → List ℕ → Option (ℕ × List ℕ)
outcome args done rest =
    if leb (length done + length (named args)) 8
    then some (
        if has_all args then (8, all_channels) else (
          length done + length (named args),
          (done ++ named args) ++ drop (length (named args)) rest,
        ))
    else none
