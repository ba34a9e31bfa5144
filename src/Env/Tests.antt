-- ===== src/Env/Tests.antt =====
-- An environment file with its kinds of lines.
use h_go.Base.{String, ◌≡◌, refl, none, some, List, [], ◌∷◌, get}
use h_go.Env.{load_env_files_if_unset, assignment}
use h_go.Env.Loading.{or_else, first_value, all_lines, get-load_env_files_if_unset}

abbrev file : List String
file =
    "# settings" ∷ "" ∷ " export IM_MAX_RETRY = 7 " ∷ "IM_NAME=\"a = b\"" ∷ "IM_MAX_RETRY=9" ∷ "=x"
    ∷ "plain" ∷ []

lines :
    (assignment " export IM_MAX_RETRY = 7 " ≡ some ("IM_MAX_RETRY", "7"))
    × (assignment "IM_NAME=\"a = b\"" ≡ some ("IM_NAME", "a = b"))
    × (assignment "=x" ≡ none)
    × (assignment "#a=b" ≡ none)
unfolding assignment
lines = (refl, refl, refl, refl)

get-load_env_files_if_unset_example :
    get "IM_MAX_RETRY" (load_env_files_if_unset (file ∷ []) [])
    ≡ or_else (get "IM_MAX_RETRY" []) (first_value "IM_MAX_RETRY" (all_lines (file ∷ [])))
get-load_env_files_if_unset_example = get-load_env_files_if_unset "IM_MAX_RETRY" (file ∷ []) []
