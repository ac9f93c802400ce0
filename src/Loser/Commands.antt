-- ===== src/Loser/Commands.antt =====
-- `ALIAS` and `main` of MP1/loser.cpp: which action the arguments name. `config` is the text of the
-- file `.loser_config` of a directory, `none` if it cannot be opened.
use ntu_sp17fall.Base.{◌≡◌, refl, List, [], ◌∷◌, Option, none, some, Text, text_eq, if◌then◌else◌}
use ntu_sp17fall.Loser.{Action, cmd}
use ntu_sp17fall.Loser.Commit.{words}

-- The triples that `fscanf` reads: an alias, a sign and the name of a command.
unfoldable pub find_alias : Text → List Text → Option Action
find_alias p [] = none
find_alias p (alias ∷ []) = none
find_alias p (alias ∷ oper ∷ []) = none
find_alias p (alias ∷ oper ∷ name ∷ ws) =
    let rest = find_alias p ws in if text_eq alias p then cmd name else rest

unfoldable pub alias_of : (Text → Option Text) → Text → Text → Option Action
unfolding find_alias
alias_of config s p = elim (config s) [ none ↦ none | some text ↦ find_alias p (words [] text) ]

-- The arguments behind the program's name; `none` is the exit with an error. `argc` is 3 for two of
-- them.
unfoldable pub choose_action : (Text → Option Text) → List Text → Option Action
choose_action config [] = none
choose_action config (c ∷ []) = none
choose_action config (c ∷ d ∷ []) = elim (cmd c) [
  | some action ↦ some action
  | none ↦ alias_of config d c
]
choose_action config (c ∷ d ∷ e ∷ rest) = elim (cmd c) [
  | some action ↦ some action
  | none ↦ alias_of config e d
]

-- With three arguments or more, where the first is no command, the action does not depend on the first:
-- an alias in its place is never looked up, and the second argument is looked up instead.
pub choose_action-ignores :
    (config : Text → Option Text) (c c' d e : Text) (rest : List Text)
    → cmd c ≡ none
    → cmd c' ≡ none
    → (choose_action config (c ∷ d ∷ e ∷ rest) ≡ alias_of config e d)
      × (choose_action config (c ∷ d ∷ e ∷ rest) ≡ choose_action config (c' ∷ d ∷ e ∷ rest))
unfolding choose_action
choose_action-ignores config c c' d e rest h h' =
    (rw (choose_action, h) refl, rw (choose_action, h, h') refl)
