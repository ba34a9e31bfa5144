-- ===== src/Env/Loading.antt =====
-- What a file adds to the environment.
use h_go.Base.{
  String, ◌≡◌, refl, ◌||◌, Option, none, some, List, [], ◌∷◌, ◌++◌, arith, eq_iff, str_eq,
  if◌then◌else◌, get, get-put, Option-cases, inl, inr,
}
use h_go.Text.Chars.{has_code}
use h_go.Env.{Environment, assignment, load_line, load_lines, load_env_files_if_unset}

-- What a line says of a key.
abbrev value_in : String → Option (String × String) → Option String
value_in k none = none
value_in k (some (key, value)) =
    if has_code 0 key || has_code 0 value then none else if str_eq key k then some value else none

abbrev pub or_else : Option String → Option String → Option String
or_else none o = o
or_else (some v) o = some v

-- The value that the first line about a key gives it.
pub first_value : String → List String → Option String
first_value k [] = none
first_value k (line ∷ lines) = or_else (value_in k (assignment line)) (first_value k lines)

get-load_line :
    (k line : String) (env : Environment)
    → get k (load_line line env) ≡ or_else (get k env) (value_in k (assignment line))
unfolding load_line
get-load_line k line env = elim (Option-cases (assignment line)) [
  | inl nothing ↦ ground arith
  | inr ((key, value), e) ↦ ground (arith, get-put key k value env, eq_iff key k)
]

get-load_lines :
    (k : String) (lines : List String) (env : Environment)
    → get k (load_lines lines env) ≡ or_else (get k env) (first_value k lines)
unfolding load_lines first_value
get-load_lines k [] env = ground arith
get-load_lines k (line ∷ lines) env =
    ground (arith, get-load_lines k lines (load_line line env), get-load_line k line env)

abbrev pub all_lines : List (List String) → List String
all_lines [] = []
all_lines (file ∷ files) = file ++ all_lines files

first_value-append :
    (k : String) (xs ys : List String)
    → first_value k (xs ++ ys) ≡ or_else (first_value k xs) (first_value k ys)
unfolding first_value
first_value-append k [] ys = refl
first_value-append k (x ∷ xs) ys = ground (arith, first_value-append k xs ys)

-- A variable that is set keeps its value; one that is not gets the value of the first line, in the order of the files,
-- that sets it, and stays unset if there is none.
pub get-load_env_files_if_unset :
    (k : String) (files : List (List String)) (env : Environment)
    → get k (load_env_files_if_unset files env)
      ≡ or_else (get k env) (first_value k (all_lines files))
unfolding load_env_files_if_unset first_value
get-load_env_files_if_unset k [] env = ground arith
get-load_env_files_if_unset k (file ∷ files) env = ground (
  arith,
  get-load_env_files_if_unset k files (load_lines file env),
  get-load_lines k file env,
  first_value-append k file (all_lines files),
)
