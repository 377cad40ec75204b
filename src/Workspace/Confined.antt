-- ===== src/Workspace/Confined.antt =====
-- agentsecure/workspace/apply.py: which paths of the project can change, and to what.
use agentsecure_community.Base.{
  ◌≡◌, refl, sym, ap, ◌∙◌, subst, ◌⊎◌, inl, inr, Bool, true, false, Option, none, some, List, [],
  ◌∷◌, ◌==◌, arith, if◌then◌else◌, Option-cases, Bool-cases,
}
use agentsecure_community.Base.Lists.{All}
use agentsecure_community.Base.Text.{Text, lit, text_eq}
use agentsecure_community.Base.Dict
use agentsecure_community.Base.Exec.{Result, ok, Result-cases, ok_injective}
use agentsecure_community.Workspace.{
  file, directory, Entry, plain, link, Tree, WorkspaceTree, as_node, ApplyChange, ApplyResult,
  exists, is_directory, is_link, content, protected_set, is_protected, collect_paths, change_of,
  plan_loop, plan, copied_node, copy_file, apply_loop, apply_workspace,
}

found_text :
    (from : Option Entry)
    → exists from ≡ true
    → is_directory (as_node from) ≡ false
    → is_link from ≡ false
    → (text : Text) × (from ≡ some (plain (file text)))
found_text none e d l = cc
found_text (some (plain (file text))) e d l = (text, refl)
found_text (some (plain directory)) e d l = cc
found_text (some (link target)) e d l = cc

module _ (normpath : Text → Text) (escapes_source escapes_workspace : Text → Bool)
    (protected : List Text) (workspace : WorkspaceTree) where
  -- A path that may be written: it is not protected, and is a plain file in the workspace.
  abbrev MayCopy : Text → Type 0
  MayCopy path =
      (is_protected normpath escapes_source escapes_workspace protected path ≡ false)
      × ((text : Text) × (Dict.lookup path workspace ≡ some (plain (file text))))

  abbrev IsSound : ApplyChange → Type 0
  IsSound change = change.action ≡ lit "copy" → MayCopy change.path

  change_facts :
      (source : Tree) (path : Text) (change : ApplyChange)
      → change_of normpath escapes_source escapes_workspace protected source workspace path
        ≡ some change
      → change.action ≡ lit "copy"
      → (change.path ≡ path)
        × (is_protected normpath escapes_source escapes_workspace protected path ≡ false)
        × (exists (Dict.lookup path workspace) ≡ true)
        × (is_directory (as_node (Dict.lookup path workspace)) ≡ false)
        × (is_link (Dict.lookup path workspace) ≡ false)
  unfolding change_of lit
  change_facts source path change h is_copy = ground arith

  change_of-IsSound :
      (source : Tree) (path : Text) (change : ApplyChange)
      → change_of normpath escapes_source escapes_workspace protected source workspace path
        ≡ some change
      → IsSound change
  change_of-IsSound source path change h is_copy =
      let (same, free, e, d, l) = change_facts source path change h is_copy in
      rw same (free, found_text (Dict.lookup path workspace) e d l)

  plan_loop-IsSound :
      (source : Tree) (paths : List Text)
      → All IsSound
          (plan_loop normpath escapes_source escapes_workspace protected source workspace paths)
  unfolding plan_loop
  plan_loop-IsSound source [] = tt
  plan_loop-IsSound source (path ∷ paths) =
      let step =
        change_of normpath escapes_source escapes_workspace protected source workspace path in
      elim (Option-cases step) [
        | inl e ↦ rw (plan_loop, e) (plan_loop-IsSound source paths)
        | inr (change, e) ↦
            rw (plan_loop, e)
              (change_of-IsSound source path change e, plan_loop-IsSound source paths)
      ]

  module _ (original : Tree) where
    -- The path is as it was, or it may be written and has the text of the workspace.
    abbrev pub IsConfined : Tree → Type 0
    IsConfined left =
        (k : Text)
        → (Dict.lookup k left ≡ Dict.lookup k original)
          ⊎ ((is_protected normpath escapes_source escapes_workspace protected k ≡ false)
              × ((text : Text) × (Dict.lookup k workspace ≡ some (plain (file text)))
                  × (Dict.lookup k left ≡ some (file text))))

    copied_node-IsConfined :
        (path text : Text) (source : Tree)
        → is_protected normpath escapes_source escapes_workspace protected path ≡ false
        → Dict.lookup path workspace ≡ some (plain (file text))
        → IsConfined source
        → IsConfined (Dict.insert path (file text) source)
    copied_node-IsConfined path text source free found confined k =
        let new = file text in
        elim (text_eq.dec k path) [
          | yes same ↦ rw same (inr (free, (text, found, Dict.lookup-insert_self path new source)))
          | no differ ↦
              let other : Dict.lookup k (Dict.insert path new source) ≡ Dict.lookup k source =
                ground (arith, Dict.lookup-insert k path new source) in
              rw other (confined k)
        ]

    abbrev loop : Bool → List ApplyChange → Tree → Tree × Result ApplyResult
    loop dry_run = apply_loop normpath escapes_source escapes_workspace dry_run workspace

    copy_file-IsConfined :
        (path : Text) (source copied : Tree)
        → MayCopy path
        → IsConfined source
        → copy_file normpath escapes_source escapes_workspace workspace path source ≡ ok copied
        → IsConfined copied
    unfolding copy_file
    copy_file-IsConfined path source copied (free, (text, found)) confined h =
        let shape : copied_node (content (as_node (Dict.lookup path workspace))) path source
            ≡ Dict.insert path (file text) source =
          ap (λ n. copied_node (content (as_node n)) path source) found in
        let same : copied_node (content (as_node (Dict.lookup path workspace))) path source
            ≡ copied =
          ground arith in
        subst IsConfined (sym shape ∙ same)
          (copied_node-IsConfined path text source free found confined)

    step-IsConfined :
        (dry_run : Bool) (path : Text) (source copied : Tree)
        → MayCopy path
        → IsConfined source
        → (if dry_run
            then ok source
            else copy_file normpath escapes_source escapes_workspace workspace path source)
          ≡ ok copied
        → IsConfined copied
    step-IsConfined true path source copied may confined h =
        subst IsConfined (ok_injective source copied h) confined
    step-IsConfined false path source copied may confined h =
        copy_file-IsConfined path source copied may confined h

    apply_loop-IsConfined :
        (dry_run : Bool) (changes : List ApplyChange) (source : Tree)
        → All IsSound changes
        → IsConfined source
        → IsConfined (loop dry_run changes source).0
    unfolding apply_loop
    apply_loop-IsConfined dry_run [] source sound confined = confined
    apply_loop-IsConfined dry_run (change ∷ changes) source (here, sound) confined =
        let all = change ∷ changes in
        let step =
          if dry_run
          then ok source
          else copy_file normpath escapes_source escapes_workspace workspace change.path source in
        elim (Bool-cases (change.action == lit "copy")) [
          | inr e ↦
              let shape : (loop dry_run all source).0 ≡ (loop dry_run changes source).0 =
                rw (apply_loop, e) refl in
              subst IsConfined (sym shape)
                (apply_loop-IsConfined dry_run changes source sound confined)
          | inl e ↦ elim (Result-cases step) [
            | inl (error, r) ↦
                let shape : (loop dry_run all source).0 ≡ source = rw (apply_loop, e, r) refl in
                subst IsConfined (sym shape) confined
            | inr (copied, r) ↦
                let shape : (loop dry_run all source).0 ≡ (loop dry_run changes copied).0 =
                  rw (apply_loop, e, r) refl in
                let is_copy : change.action ≡ lit "copy" = ground (arith, e) in
                subst IsConfined (sym shape) (
                  apply_loop-IsConfined dry_run changes copied sound
                    (step-IsConfined dry_run change.path source copied (here is_copy) confined r))
          ]
        ]

module _ (normpath : Text → Text) (escapes_source escapes_workspace : Text → Bool) where
  -- For a project without links, and a workspace whose links lead to files or to nothing: whatever
  -- `apply` does, whether it raises or not, each path of the project is as it was, or it is not
  -- protected, is a plain file in the workspace, and has the text that it has there.
  pub apply_workspace-IsConfined :
      (protected_paths : List Text) (dry_run : Bool) (workspace : WorkspaceTree) (source : Tree)
      → IsConfined normpath escapes_source escapes_workspace
          (protected_set normpath escapes_source escapes_workspace protected_paths)
          workspace
          source
          (apply_workspace normpath escapes_source escapes_workspace protected_paths dry_run
            workspace source).0
  unfolding apply_workspace plan
  apply_workspace-IsConfined protected_paths dry_run workspace source =
      let protected = protected_set normpath escapes_source escapes_workspace protected_paths in
      apply_loop-IsConfined normpath escapes_source escapes_workspace protected workspace source
        dry_run (plan normpath escapes_source escapes_workspace protected_paths source workspace)
        source
        (plan_loop-IsSound normpath escapes_source escapes_workspace protected workspace source
          (collect_paths normpath escapes_source escapes_workspace protected source workspace))
        (λ k. inl refl)
