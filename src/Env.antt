-- ===== src/Env.antt =====
-- internal/utils/env.go: the lines of an environment file, and the environment as a dictionary. A file is the lines
-- that its bufio.Scanner yields, none where it cannot be opened.
pub mod Settings
pub mod Loading
mod Tests
use Prim.Native.Char.{Char, code}
use h_go.Base.{
  ℕ, String, ◌≡◌, refl, Bool, ◌&&◌, ◌||◌, Option, none, some, List, [], ◌∷◌, ◌==◌, leb, str_eq,
  if◌then◌else◌, Dict, get, put, is_some,
}
use h_go.Text.Chars.{has_code}
use h_go.Text.Trim.{trim_space, is_empty}
use h_go.Text.Split.{split_cuts}
use h_go.Text.Find.{has_prefix, drop_chars, byte_length}

abbrev pub Environment : Type 0
Environment = Dict String

-- os.Setenv, which refuses a NUL; its error is dropped.
abbrev pub set_env : String → String → Environment → Environment
set_env key value env = if has_code 0 key || has_code 0 value then env else put key value env

first_code : String → ℕ
first_code String.[] = 0
first_code (String.◌∷◌ c s) = code c

last_code : String → ℕ
last_code String.[] = 0
last_code (String.◌∷◌ c s) = let rest = last_code s in if is_empty s then code c else rest

drop_last : String → String
drop_last String.[] = String.[]
drop_last (String.◌∷◌ c s) =
    let rest = drop_last s in if is_empty s then String.[] else String.◌∷◌ c rest

-- A pair of quotes round a value is taken off.
unfoldable pub unquoted : String → String
unfolding first_code last_code drop_last byte_length drop_chars
unquoted value =
    let q = first_code value in
    if leb 2 (byte_length value) && (q == b'"' || q == b'\'') && last_code value == q
    then drop_last (drop_chars 1 value)
    else value

-- The key and the value that a line sets, by its parts around the first `=`.
assignment_of : List String → Option (String × String)
assignment_of (k ∷ v ∷ []) =
    let key = trim_space k in if is_empty key then none else some (key, unquoted (trim_space v))
assignment_of _ = none

unfoldable pub assignment : String → Option (String × String)
unfolding assignment_of unquoted trim_space has_prefix drop_chars split_cuts
assignment text =
    let line = trim_space text in
    if is_empty line || has_prefix "#" line
    then none
    else (let line' = if has_prefix "export " line then trim_space (drop_chars 7 line) else line in
        assignment_of (split_cuts "=" 1 line'))

-- One round of the loop of loadOneEnvFileIfUnset.
unfoldable pub load_line : String → Environment → Environment
load_line text env = elim (assignment text) [
  | none ↦ env
  | some (key, value) ↦ if is_some (get key env) then env else set_env key value env
]

-- loadOneEnvFileIfUnset
unfoldable pub load_lines : List String → Environment → Environment
unfolding load_line
load_lines [] env = env
load_lines (line ∷ lines) env = load_lines lines (load_line line env)

-- LoadEnvFilesIfUnset
unfoldable pub load_env_files_if_unset : List (List String) → Environment → Environment
unfolding load_lines
load_env_files_if_unset [] env = env
load_env_files_if_unset (file ∷ files) env = load_env_files_if_unset files (load_lines file env)
