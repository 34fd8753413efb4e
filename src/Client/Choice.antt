-- ===== src/Client/Choice.antt =====
-- client/pmlabclient.c, `parse_channels`: the channels that the command line names. An argument is
-- its bytes without the NUL.
pub mod Outcome
use pm_lab_tools.Prelude.{
  ℕ, zero, suc, drop-nil, ◌+◌, ◌≤◌, ◌<◌, ◌≡◌, refl, sym, ap, ◌∙◌, inl, inr, Bool, true, false,
  Option, none, some, List, [], ◌∷◌, ◌++◌, arith, ltb, leb, ◌==◌, if◌then◌else◌, length, take, drop,
  set, append-nil, append_assoc, length-append, Bool-cases, Option-cases, dec_lt,
}
use pm_lab_tools.Protocol.{codes}
use pm_lab_tools.Client.Read.{equal_bytes}

-- The names in the chain of `strcmp`s, with the numbers that common/conf.h gives them.
abbrev channel_names : List (List ℕ × ℕ)
channel_names =
    (codes "ai0", 0)
    ∷ (codes "ai1", 1)
    ∷ (codes "ai2", 2)
    ∷ (codes "ai3", 3)
    ∷ (codes "ai4", 4)
    ∷ (codes "ai5", 5)
    ∷ (codes "ai6", 6)
    ∷ (codes "ai7", 7)
    ∷ (codes "pm2", 1)
    ∷ (codes "pm3", 2)
    ∷ (codes "pm4", 3)
    ∷ (codes "pm5", 4)
    ∷ (codes "pm6", 5)
    ∷ (codes "pm7", 6)
    ∷ []

abbrev find_name : List (List ℕ × ℕ) → List ℕ → Option ℕ
find_name [] arg = none
find_name (entry ∷ rest) arg = if equal_bytes entry.0 arg then some entry.1 else find_name rest arg

unfoldable pub channel_of : List ℕ → Option ℕ
channel_of arg = find_name channel_names arg

unfoldable pub is_all : List ℕ → Bool
is_all arg = equal_bytes (codes "all") arg

-- `all_channels` of `main`.
abbrev pub all_channels : List ℕ
all_channels = 0 ∷ 1 ∷ 2 ∷ 3 ∷ 4 ∷ 5 ∷ 6 ∷ 7 ∷ []

-- The loop of `parse_channels`, from `active_channels` and `chosen_channels` to what they are in the
-- end. `none` means that a channel is stored behind the end of `chosen_channels`.
unfoldable pub parse_loop : ℕ → List ℕ → List (List ℕ) → ℕ → List ℕ → Option (ℕ × List ℕ)
parse_loop max_channels all [] active chosen = some (active, chosen)
parse_loop max_channels all (arg ∷ rest) active chosen =
    let ignored = parse_loop max_channels all rest active chosen in
    if leb active max_channels
    then (elim (channel_of arg) [
      | some c ↦
          let stored = parse_loop max_channels all rest (active + 1) (set chosen active c) in
          if ltb active (length chosen) then stored else none
      | none ↦
          if is_all arg
          then (if leb max_channels (length chosen)
              then some (max_channels, take max_channels all ++ drop max_channels chosen)
              else none)
          else ignored
    ])
    else some (active, chosen)

-- `parse_channels`
unfoldable pub parse_channels : List (List ℕ) → ℕ → List ℕ → List ℕ → Option (ℕ × List ℕ)
parse_channels args max_channels all chosen = parse_loop max_channels all args 0 chosen

-- The channels that the arguments before the first "all" are the names of.
unfoldable pub named : List (List ℕ) → List ℕ
named [] = []
named (arg ∷ rest) =
    let more = named rest in
    elim (channel_of arg) [ some c ↦ c ∷ more | none ↦ if is_all arg then [] else more ]

-- Whether there is an "all". No channel has this name.
pub has_all : List (List ℕ) → Bool
has_all [] = false
has_all (arg ∷ rest) =
    let more = has_all rest in
    elim (channel_of arg) [ some c ↦ more | none ↦ if is_all arg then true else more ]
