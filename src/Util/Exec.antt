-- ===== src/Util/Exec.antt =====
-- usr/lib/smd/lib/util/exec.py: `split`, which reads a command from the configuration.
use spaceport.Base.{String, Option, none, some, List, [], ◌∷◌, ◌++◌, str_eq, if◌then◌else◌}
use spaceport.Value.{Value, text, arr, Items, nil, cons, Result, ok, err}

-- What `split` calls: `expand` of usr/lib/smd/lib/util/file.py on a text that is not empty, which puts in
-- the home directory and the variables of the environment, and `split` and `join` of Python's `shlex`.
pub record Shell : Type 0 where
  pub expand : String → String
  pub shell_split : String → Result (List String)
  pub join : List String → String

-- The texts of an inner list, each expanded.
unfoldable pub expand_texts : Shell → Items → List String
expand_texts sh nil = []
expand_texts sh (cons (text t) vs) =
    let rest = expand_texts sh vs in if str_eq t "" then rest else sh.expand t ∷ rest
expand_texts sh (cons _ vs) = expand_texts sh vs

-- One item of a list: an inner list is joined to one text.
unfoldable pub split_item : Shell → Value → List String
split_item sh (arr nil) = []
split_item sh (arr (cons v vs)) = sh.join (expand_texts sh (cons v vs)) ∷ []
split_item sh (text t) = if str_eq t "" then [] else sh.expand t ∷ []
split_item sh _ = []

unfoldable pub split_items : Shell → Items → List String
split_items sh nil = []
split_items sh (cons v vs) = split_item sh v ++ split_items sh vs

abbrev pub unless_empty : List String → Option (List String)
unless_empty [] = none
unless_empty (c ∷ cs) = some (c ∷ cs)

abbrev pub some_words : Result (List String) → Result (Option (List String))
some_words (ok ws) = ok (some ws)
some_words (err e) = err e

-- `split(val, True)`
unfoldable pub split : Shell → Value → Result (Option (List String))
split sh (text t) = if str_eq t "" then ok none else some_words (sh.shell_split (sh.expand t))
split sh (arr vs) = ok (unless_empty (split_items sh vs))
split sh _ = ok none

abbrev pub one_command : Result (List String) → Result (List (List String))
one_command (ok ws) = ok (ws ∷ [])
one_command (err e) = err e

-- One item of a list, as a command of its own.
unfoldable pub split_command : Shell → Value → Result (List (List String))
split_command sh (arr nil) = ok []
split_command sh (arr (cons v vs)) = ok (expand_texts sh (cons v vs) ∷ [])
split_command sh (text t) =
    if str_eq t "" then ok [] else one_command (sh.shell_split (sh.expand t))
split_command sh _ = ok []

abbrev pub join_commands :
    Result (List (List String)) → Result (List (List String)) → Result (List (List String))
join_commands (err e) r = err e
join_commands (ok c) (err e) = err e
join_commands (ok c) (ok cs) = ok (c ++ cs)

unfoldable pub split_commands : Shell → Items → Result (List (List String))
split_commands sh nil = ok []
split_commands sh (cons v vs) = join_commands (split_command sh v) (split_commands sh vs)

abbrev pub some_commands : Result (List (List String)) → Result (Option (List (List String)))
some_commands (ok cs) = ok (some cs)
some_commands (err e) = err e

-- `split(val)`
unfoldable pub split_all : Shell → Value → Result (Option (List (List String)))
split_all sh (text t) =
    if str_eq t "" then ok (some []) else some_commands (one_command (sh.shell_split (sh.expand t)))
split_all sh (arr vs) = some_commands (split_commands sh vs)
split_all sh _ = ok none
