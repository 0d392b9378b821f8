-- ===== src/Pir/Access.antt =====
-- provider/gateway/pir/access.go: which bearer tokens the gateway accepts. What the environment
-- holds is an argument: the two variables, and the content of the file if it can be read.
pub mod Accept
mod Tests
use rezerve.Base.{
  ℕ, ◌≡◌, Bool, true, false, ◌&&◌, ◌||◌, List, [], ◌∷◌, ◌++◌, Option, none, some, Text, ◌==◌,
  nat_eq, list_eq, if◌then◌else◌, leb, all, length, to_lower, trim_space, contains,
}
use rezerve.Pir.Book.{State, open_bearers}

pub record AllowList : Type 0 where
  pub bearers : Text
  pub bearers_file : Text
  pub file_content : Option Text

-- The runes that separate tokens.
abbrev is_separator : ℕ → Bool
is_separator c = (c == b',') || (c == 10) || (c == 32)

-- strings.FieldsFunc: the maximal runs between separators; the first argument is the run so far.
fields_from : Text → Text → List Text
fields_from field [] = if field == [] then [] else field ∷ []
fields_from field (c ∷ s) =
    let rest = fields_from [] s in
    let more = fields_from (field ++ c ∷ []) s in
    if is_separator c then (if field == [] then rest else field ∷ rest) else more

-- The loop of `loadEnvOrFile`, with the set as a list.
keep_tokens : List Text → List Text
keep_tokens [] = []
keep_tokens (t ∷ ts) =
    let rest = keep_tokens ts in
    let tok = trim_space (to_lower t) in if length tok == 64 then tok ∷ rest else rest

pub load_env_or_file : AllowList → List Text
unfolding fields_from keep_tokens
load_env_or_file al =
    let raw =
      if al.bearers_file == []
      then al.bearers
      else elim al.file_content [ none ↦ al.bearers | some b ↦ b ] in
    keep_tokens (fields_from [] raw)

unfoldable pub is_hex : ℕ → Bool
is_hex c = (leb b'0' c && leb c b'9') || (leb b'a' c && leb c b'f')

unfoldable pub hex_tok : Text → Option Text
unfolding is_hex
hex_tok tok =
    let t = to_lower (trim_space tok) in
    if length t == 64 then (if all is_hex t then some t else none) else none

pub accept_bearer : State → AllowList → Text → Bool
accept_bearer s al tok = elim (hex_tok tok) [
  | none ↦ false
  | some t ↦ if contains t (open_bearers s) then true else contains t (load_env_or_file al)
]
