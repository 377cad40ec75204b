-- ===== src/Tests/Guard.antt =====
-- guard/sanitizer.py and workspace/rewriter.py at concrete texts.
use agentsecure_community.Base.{nat_eq, ℕ, ◌≡◌, refl, false, some, [], ◌∷◌, ◌++◌, nat_eq, contains}
use agentsecure_community.Base.Computing.{computing}
use agentsecure_community.Base.Lists.{All}
use agentsecure_community.Base.Text.{Text, lit, text_eq, has_sub}
use agentsecure_community.Base.Dict
use agentsecure_community.Base.Dict.{Dict}
use agentsecure_community.Guard.{
  replace_from, replace, split_lines, parse_env_assignment_name, remove_denied_env_lines,
  insert_longer, longest_first, drop_denied, replace_all, SecretReplacementMap, sanitize_text,
}
use agentsecure_community.Guard.Replacing.{IsClear}
use agentsecure_community.Guard.Hiding.{AreClear, sanitize_text-hides}
use agentsecure_community.Guard.Splicing.{denying, sanitize_text-splices}
use agentsecure_community.Guard.Rewriter.{
  SecretReplacement, active, rewrite_file, rewrite_file-hides,
}

abbrev key : Text
key = lit "sk-live-49f0"

abbrev token : Text
token = lit "virtual_a"

abbrev items : Dict Text Text
items = (key, token) ∷ []

abbrev map : SecretReplacementMap
map = record {
  replacements = items;
  denied_env_names = lit "ROOT" ∷ [];
  denied_values = lit "hunter2" ∷ [];
}

shown :
    sanitize_text map (lit "ROOT=1\nKEY=sk-live-49f0\n# ROOT=hunter2\n")
    ≡ lit "KEY=virtual_a\n# ROOT=\n"
unfolding sanitize_text remove_denied_env_lines split_lines parse_env_assignment_name longest_first
    insert_longer drop_denied replace_all replace replace_from computing
shown = refl

key-IsClear : IsClear key token
unfolding computing
key-IsClear = record { filled = refl; left = refl; right = refl }

items-AreClear : AreClear items items
items-AreClear = ((key-IsClear, tt), tt)

token_of_key : Dict.lookup key map.replacements ≡ some token
unfolding computing
token_of_key = refl

sanitize_text-hides_example : has_sub (sanitize_text map (lit "KEY=sk-live-49f0\n")) key ≡ false
sanitize_text-hides_example =
    sanitize_text-hides map (lit "KEY=sk-live-49f0\n") key token items-AreClear token_of_key

fresh_first : contains {A = ℕ} (b'e' ∷ b'y' ∷ []) b'k' ≡ false
unfolding computing
fresh_first = refl

sanitize_text-splices_example :
    sanitize_text
      (denying (b'k' ∷ b'e' ∷ b'y' ∷ []))
      (b'k' ∷ ((b'k' ∷ b'e' ∷ b'y' ∷ []) ++ (b'e' ∷ b'y' ∷ [])))
    ≡ b'k' ∷ b'e' ∷ b'y' ∷ []
sanitize_text-splices_example = sanitize_text-splices b'k' b'e' (b'y' ∷ []) fresh_first

abbrev replacement : SecretReplacement
replacement = record {
  source = lit ".env";
  name = lit "KEY";
  real_value = key;
  virtual_value = token;
  action = lit "replace";
}

one_active : active (replacement ∷ []) ≡ items
unfolding computing
one_active = refl

replacement-AreClear : AreClear (active (replacement ∷ [])) (active (replacement ∷ []))
replacement-AreClear = rw one_active items-AreClear

rewrite_file-hides_example :
    All
      (λ a. has_sub (rewrite_file (lit "KEY=sk-live-49f0\n") (replacement ∷ [])) a.0 ≡ false)
      (active (replacement ∷ []))
rewrite_file-hides_example =
    rewrite_file-hides (lit "KEY=sk-live-49f0\n") (replacement ∷ []) replacement-AreClear
