-- ===== src/Network/Process.antt =====
-- `DefaultPolicyEngine.evaluate_process` of implementations/policy.py, with
-- `safe_command_metadata` of core/command_metadata.py: which commands may run, and what of them
-- reaches the audit log. `os.path.basename` is the text behind the last slash.
use agentsecure_community.Base.{
  ◌≡◌, refl, ◌↔◌, ◌⊎◌, inl, Bool, true, ◌||◌, List, [], ◌∷◌, arith, contains, nat_eq, if◌then◌else◌,
}
use agentsecure_community.Base.Lists.{length}
use agentsecure_community.Base.Text.{Text, lit, text_eq, is_empty, basename}
use agentsecure_community.Base.Event.{Log, emit, text, texts, number, flag, optional_text}
use agentsecure_community.Model.{PolicyDecision, allow, deny}

-- `safe_command_metadata`, for an `argv` that is a list: the value of `agent`.
unfoldable pub command_name : List Text → Text
command_name [] = []
command_name (command ∷ args) = basename command

-- The value of `argv` there.
unfoldable pub metadata_argv : List Text → List Text
unfolding command_name
metadata_argv argv =
    let command = command_name argv in if is_empty command then [] else command ∷ []

-- `_command_allowed`
unfoldable pub command_allowed : List Text → Text → Bool
command_allowed allowed_commands command =
    contains allowed_commands command || contains allowed_commands (basename command)

unfoldable pub decide_process : List Text → List Text → PolicyDecision
unfolding command_allowed
decide_process allowed_commands [] = deny (lit "empty command") (lit "process.empty")
decide_process [] (command ∷ args) =
    allow (lit "process allowed by default") (lit "process.default")
decide_process (first ∷ others) (command ∷ args) =
    if command_allowed (first ∷ others) command
    then allow (lit "process command allowlisted") (lit "process.allow_command")
    else deny (lit "process command is not allowlisted") (lit "process.allow_command")

unfoldable pub evaluate_process : List Text → List Text → Text → Log → PolicyDecision × Log
unfolding decide_process metadata_argv
evaluate_process allowed_commands argv cwd log =
    let decision = decide_process allowed_commands argv in
    (
      decision,
      emit log (lit "process_policy") (
          (lit "argv", texts (metadata_argv argv))
          ∷ (lit "argc", number (length argv))
          ∷ (lit "cwd", text cwd)
          ∷ (lit "allowed", flag decision.allowed)
          ∷ (lit "reason", text decision.reason)
          ∷ (lit "rule_id", optional_text decision.rule_id)
          ∷ []),
    )

-- A command may run exactly if its argument list has a first word and the allow list is empty or
-- has that word or its base name.
pub evaluate_process-allowed :
    (allowed_commands argv : List Text) (cwd : Text) (log : Log)
    → ((evaluate_process allowed_commands argv cwd log).0.allowed ≡ true) ↔ (
        (command : Text) × (args : List Text) × (argv ≡ command ∷ args)
        × ((allowed_commands ≡ [])
            ⊎ (contains allowed_commands command ≡ true)
            ⊎ (contains allowed_commands (basename command) ≡ true)))
unfolding evaluate_process
evaluate_process-allowed allowed_commands [] cwd log = (λ h. cc h, λ (c, args, e, h). cc e)
evaluate_process-allowed [] (command ∷ args) cwd log =
    (λ h. (command, args, refl, inl refl), λ h. refl)
evaluate_process-allowed (first ∷ others) (command ∷ args) cwd log =
    (λ h. (command, args, refl, ground arith), λ (c, rest, e, h). ground arith)

-- The arguments of a command do not reach the audit log: two commands with the same first word and
-- as many arguments leave the same log and get the same decision.
pub evaluate_process_ignores_arguments :
    (allowed_commands : List Text) (command : Text) (args others : List Text) (cwd : Text)
    (log : Log)
    → length args ≡ length others
    → evaluate_process allowed_commands (command ∷ args) cwd log
      ≡ evaluate_process allowed_commands (command ∷ others) cwd log
unfolding evaluate_process
evaluate_process_ignores_arguments [] command args others cwd log h = rw h
evaluate_process_ignores_arguments (_ ∷ _) command args others cwd log h = rw h
