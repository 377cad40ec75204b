-- ===== src/Guard/Rewriter.antt =====
-- agentsecure/workspace/rewriter.py: the dotenv files of a workspace, with the texts in the place of
-- the real values. `_parse_name` is the function of the sanitizer in guard/sanitizer.py.
use agentsecure_community.Base.{
  ◌≡◌, refl, Bool, false, not, ◌&&◌, ◌||◌, Option, none, some, List, [], ◌∷◌, ◌==◌, arith, contains,
  if◌then◌else◌,
}
use agentsecure_community.Base.Lists.{All, keep}
use agentsecure_community.Base.Text.{Text, lit, text_eq, is_empty, basename, ends_with, has_sub}
use agentsecure_community.Base.Dict
use agentsecure_community.Base.Dict.{Dict}
use agentsecure_community.Guard.{replace, split_lines, join, parse_env_assignment_name, replace_all}
use agentsecure_community.Guard.Hiding.{AreClear, replace_all-hides}

pub record SecretReplacement : Type 0 where
  pub source : Text
  pub name : Text
  pub real_value : Text
  pub virtual_value : Text
  pub action : Text

abbrev pub dotenv_rewrite_names : List Text
dotenv_rewrite_names = lit ".env" ∷ lit ".env.local" ∷ lit ".env.development" ∷ []

unfoldable pub should_rewrite : Text → Bool
should_rewrite relative_path =
    let name = basename relative_path in
    contains dotenv_rewrite_names name || ends_with name (lit ".env")

-- `{replacement.name: replacement for replacement in replacements}`
abbrev pub by_name :
    List SecretReplacement → Dict Text SecretReplacement → Dict Text SecretReplacement
by_name [] d = d
by_name (r ∷ rest) d = by_name rest (Dict.insert r.name r d)

abbrev removes : Option SecretReplacement → Bool
removes none = false
removes (some r) = r.action == lit "remove"

abbrev is_removed : Dict Text SecretReplacement → Option Text → Bool
is_removed d none = false
is_removed d (some name) = removes (Dict.lookup name d)

-- `_remove_denied_lines`
unfoldable pub remove_denied_lines : Text → Dict Text SecretReplacement → Text
unfolding parse_env_assignment_name split_lines
remove_denied_lines content replacements = join (
    keep (λ line. not (is_removed replacements (parse_env_assignment_name line)))
      (split_lines content))

-- The loop of `rewrite_file`.
unfoldable pub rewrite_values : List SecretReplacement → Text → Text
unfolding replace
rewrite_values [] rewritten = rewritten
rewrite_values (r ∷ rest) rewritten = rewrite_values rest (
    if not (r.action == lit "remove") && not (is_empty r.real_value)
    then replace r.real_value r.virtual_value rewritten
    else rewritten)

-- `rewrite_file`, from the content of the one file to that of the other.
unfoldable pub rewrite_file : Text → List SecretReplacement → Text
unfolding remove_denied_lines rewrite_values
rewrite_file content replacements =
    rewrite_values replacements (remove_denied_lines content (by_name replacements []))

-- The real values that are replaced, with their texts.
abbrev pub active : List SecretReplacement → Dict Text Text
active [] = []
active (r ∷ rest) =
    let later = active rest in
    if not (r.action == lit "remove") && not (is_empty r.real_value)
    then (r.real_value, r.virtual_value) ∷ later
    else later

rewrite_values-active :
    (replacements : List SecretReplacement) (text : Text)
    → rewrite_values replacements text ≡ replace_all (active replacements) text
unfolding rewrite_values replace_all
rewrite_values-active [] text = refl
rewrite_values-active (r ∷ rest) text = ground (
  arith,
  rewrite_values-active rest text,
  rewrite_values-active rest (replace r.real_value r.virtual_value text),
)

-- Where no real value can reach into the texts that take the place of real values, no value that
-- is replaced occurs in the file that is written.
pub rewrite_file-hides :
    (content : Text) (replacements : List SecretReplacement)
    → AreClear (active replacements) (active replacements)
    → All (λ a. has_sub (rewrite_file content replacements) a.0 ≡ false) (active replacements)
unfolding rewrite_file
rewrite_file-hides content replacements clear =
    rw (rewrite_values-active replacements (remove_denied_lines content (by_name replacements [])))
      (replace_all-hides (active replacements) _ clear)
