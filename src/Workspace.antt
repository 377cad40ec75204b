-- ===== src/Workspace.antt =====
-- agentsecure/workspace/apply.py: the files of a kept workspace that go back to the project.
-- A tree has its files by their path from its root, without aliases: the project has no links, and
-- a link of the workspace leads to a file or to nothing. The directories above a file are not
-- followed up: `os.makedirs` makes what is missing. Parameters: `os.path.normpath`, and whether a
-- path leads out of a root.
pub mod Confined
use agentsecure_community.Base.{
  ℕ, Bool, true, false, not, ◌&&◌, ◌||◌, Option, none, some, List, [], ◌∷◌, ◌++◌, ◌==◌, nat_beq,
  contains, map, if◌then◌else◌,
}
use agentsecure_community.Base.Lists.{any, keep}
use agentsecure_community.Base.Text.{Text, lit, text_eq, lstrip, rstrip, starts_with, basename}
use agentsecure_community.Base.Dict
use agentsecure_community.Base.Dict.{Dict}
use agentsecure_community.Base.Exec.{Result, ok, raised, value_error}
use agentsecure_community.Broker.{is_slash, sorted_names}

pub data Node : Type 0 where
  file : Text → Node
  directory : Node

-- What a link leads to.
pub data Target : Type 0 where
  nowhere : Target
  to_file : Text → Target

pub data Entry : Type 0 where
  plain : Node → Entry
  link : Target → Entry

-- The project, and the workspace.
abbrev pub Tree : Type 0
Tree = Dict Text Node

abbrev pub WorkspaceTree : Type 0
WorkspaceTree = Dict Text Entry

abbrev pub as_workspace : Tree → WorkspaceTree
as_workspace [] = []
as_workspace ((path, node) ∷ tree) = (path, plain node) ∷ as_workspace tree

pub record ApplyChange : Type 0 where
  pub action : Text
  pub path : Text
  pub reason : Text

pub record ApplyResult : Type 0 where
  pub copied : List Text
  pub skipped : List ApplyChange

abbrev pub default_apply_skip_dirs : List Text
default_apply_skip_dirs =
    lit ".agentsecure"
    ∷ lit ".git"
    ∷ lit ".venv"
    ∷ lit "venv"
    ∷ lit "node_modules"
    ∷ lit "__pycache__"
    ∷ []

abbrev pub default_protected_paths : List Text
default_protected_paths =
    lit ".env" ∷ lit ".env.local" ∷ lit ".env.development" ∷ lit "agentsecure.json" ∷ []

-- `os.path.exists`, `os.path.isdir` and the content of what `os.path.isfile` is true of; they follow
-- links.
abbrev pub exists : Option Entry → Bool
exists none = false
exists (some (link nowhere)) = false
exists (some (link (to_file text))) = true
exists (some (plain node)) = true

abbrev pub as_node : Option Entry → Option Node
as_node none = none
as_node (some (plain node)) = some node
as_node (some (link nowhere)) = none
as_node (some (link (to_file text))) = some (file text)

abbrev pub is_directory : Option Node → Bool
is_directory (some directory) = true
is_directory _ = false

abbrev pub is_link : Option Entry → Bool
is_link (some (link target)) = true
is_link _ = false

abbrev pub content : Option Node → Option Text
content (some (file text)) = some text
content _ = none

abbrev same_content : Option Text → Option Text → Bool
same_content (some a) (some b) = a == b
same_content _ _ = false

-- `_same_file`
abbrev pub same_file : Option Node → Option Entry → Bool
same_file source workspace = same_content (content source) (content (as_node workspace))

-- The directories above a path.
abbrev above : Text → Text → List Text
above done [] = []
above done (c ∷ s) =
    let rest = above (done ++ (c ∷ [])) s in if nat_beq c b'/' then done ∷ rest else rest

-- What `os.walk` lists among the files.
abbrev is_filename : Entry → Bool
is_filename (plain (file text)) = true
is_filename (plain directory) = false
is_filename (link target) = true

abbrev pub copied_node : Option Text → Text → Tree → Tree
copied_node none path source = source
copied_node (some text) path source = Dict.insert path (file text) source

module _ (normpath : Text → Text) (escapes_source escapes_workspace : Text → Bool) where
  -- `_normalize`
  abbrev pub normalize : Text → Text
  normalize path = lstrip is_slash (normpath path)

  -- `_protected_set`
  abbrev pub protected_set : List Text → List Text
  protected_set paths = lit ".agentsecure" ∷ (default_protected_paths ++ map normalize paths)

  -- `_is_protected`
  unfoldable pub is_protected : List Text → Text → Bool
  is_protected protected path =
      any
        (λ item.
          normalize path == item || starts_with (normalize path) (rstrip is_slash item ++ lit "/"))
        protected

  -- A directory that the walk does not enter.
  abbrev is_left_out : List Text → Text → Bool
  is_left_out protected path =
      contains default_apply_skip_dirs (basename path) || is_protected protected path

  -- The files of a tree that the walk reaches.
  unfoldable pub walked : List Text → WorkspaceTree → List Text
  unfolding is_protected
  walked protected [] = []
  walked protected ((path, node) ∷ tree) =
      let rest = walked protected tree in
      if is_filename node && not (any (is_left_out protected) (above [] path))
      then path ∷ rest
      else rest

  abbrev add_path : Text → List Text → List Text
  add_path path paths = if contains paths path then paths else path ∷ paths

  abbrev add_paths : List Text → List Text → List Text
  add_paths [] paths = paths
  add_paths (path ∷ more) paths = add_path path (add_paths more paths)

  -- `_collect_paths`
  unfoldable pub collect_paths : List Text → Tree → WorkspaceTree → List Text
  unfolding walked
  collect_paths protected source workspace = sorted_names (
      add_paths (walked protected (as_workspace source))
        (add_paths (walked protected workspace) []))

  abbrev skip : Text → Text → Option ApplyChange
  skip path reason = some (record { action = lit "skip"; path = path; reason = reason })

  -- The body of the loop of `plan`.
  unfoldable pub change_of : List Text → Tree → WorkspaceTree → Text → Option ApplyChange
  unfolding is_protected
  change_of protected source workspace path =
      let from = Dict.lookup path workspace in
      let to = Dict.lookup path source in
      if is_protected protected path
      then skip path (lit "protected path")
      else if not (exists from)
      then skip path (lit "delete not applied")
      else if is_directory (as_node from)
      then none
      else if is_link from
      then skip path (lit "workspace symlink")
      else if is_directory to
      then skip path (lit "source path is directory")
      else if same_file to from
      then none
      else some (record { action = lit "copy"; path = path; reason = [] })

  unfoldable pub plan_loop : List Text → Tree → WorkspaceTree → List Text → List ApplyChange
  unfolding change_of
  plan_loop protected source workspace [] = []
  plan_loop protected source workspace (path ∷ paths) =
      let rest = plan_loop protected source workspace paths in
      elim (change_of protected source workspace path) [ none ↦ rest | some change ↦ change ∷ rest ]

  unfoldable pub plan : List Text → Tree → WorkspaceTree → List ApplyChange
  unfolding plan_loop collect_paths
  plan protected_paths source workspace =
      let protected = protected_set protected_paths in
      plan_loop protected source workspace (collect_paths protected source workspace)

  -- `_copy_file`: the tree of the project, or the message of the ValueError.
  unfoldable pub copy_file : WorkspaceTree → Text → Tree → Result Tree
  copy_file workspace path source =
      if escapes_source path
      then raised (value_error (lit "source path escapes project: " ++ path))
      else if escapes_workspace path
      then raised (value_error (lit "workspace path escapes workspace: " ++ path))
      else ok (copied_node (content (as_node (Dict.lookup path workspace))) path source)

  abbrev copied_also : Text → Result ApplyResult → Result ApplyResult
  copied_also path (raised error) = raised error
  copied_also path (ok result) = ok (record result { copied = path ∷ result.copied })

  abbrev skipped_also : ApplyChange → Result ApplyResult → Result ApplyResult
  skipped_also change (raised error) = raised error
  skipped_also change (ok result) = ok (record result { skipped = change ∷ result.skipped })

  -- The loop of `apply`, with the tree of the project as it is left.
  unfoldable pub apply_loop :
      Bool → WorkspaceTree → List ApplyChange → Tree → Tree × Result ApplyResult
  unfolding copy_file
  apply_loop dry_run workspace [] source = (source, ok (record { copied = []; skipped = [] }))
  apply_loop dry_run workspace (change ∷ changes) source = elim (change.action == lit "copy") [
    | false ↦
        let (left, result) = apply_loop dry_run workspace changes source in
        (left, skipped_also change result)
    | true ↦ elim (if dry_run then ok source else copy_file workspace change.path source) [
      | raised error ↦ (source, raised error)
      | ok copied ↦
          let (left, result) = apply_loop dry_run workspace changes copied in
          (left, copied_also change.path result)
    ]
  ]

  unfoldable pub apply_workspace :
      List Text → Bool → WorkspaceTree → Tree → Tree × Result ApplyResult
  unfolding apply_loop plan
  apply_workspace protected_paths dry_run workspace source =
      apply_loop dry_run workspace (plan protected_paths source workspace) source
