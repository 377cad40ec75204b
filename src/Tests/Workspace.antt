-- ===== src/Tests/Workspace.antt =====
-- workspace/apply.py at a concrete project.
use agentsecure_community.Base.{◌≡◌, refl, Bool, false, [], ◌∷◌}
use agentsecure_community.Base.Computing.{computing}
use agentsecure_community.Base.Text.{Text, lit, text_eq}
use agentsecure_community.Broker.{insert_name, sorted_names}
use agentsecure_community.Workspace.{
  to_file, file, plain, link, Tree, WorkspaceTree, protected_set, is_protected, walked,
  collect_paths, change_of, plan_loop, plan, copy_file, apply_loop, apply_workspace,
}
use agentsecure_community.Workspace.Confined.{IsConfined, apply_workspace-IsConfined}

abbrev same_path : Text → Text
same_path path = path

abbrev stays : Text → Bool
stays path = false

abbrev project : Tree
project =
    (lit "a.py", file (lit "old"))
    ∷ (lit ".env", file (lit "KEY=real"))
    ∷ (lit "gone.py", file (lit "x"))
    ∷ []

abbrev workspace : WorkspaceTree
workspace =
    (lit "a.py", plain (file (lit "new")))
    ∷ (lit ".env", plain (file (lit "KEY=virtual")))
    ∷ (lit "b.py", plain (file (lit "b")))
    ∷ (lit "l.py", link (to_file (lit "secret")))
    ∷ (lit ".git/hook", plain (file (lit "h")))
    ∷ []

-- The changed file and the new one are copied; the dotenv file, the link and the file that was
-- deleted are left alone, and the walk does not enter `.git`.
applied :
    (apply_workspace same_path stays stays [] false workspace project).0
    ≡ (lit "a.py", file (lit "new"))
      ∷ (lit ".env", file (lit "KEY=real"))
      ∷ (lit "gone.py", file (lit "x"))
      ∷ (lit "b.py", file (lit "b"))
      ∷ []
unfolding apply_workspace plan plan_loop change_of collect_paths walked is_protected copy_file
    apply_loop sorted_names insert_name computing
applied = refl

apply_workspace-IsConfined_example :
    IsConfined same_path stays stays
      (protected_set same_path stays stays [])
      workspace
      project
      (apply_workspace same_path stays stays [] false workspace project).0
apply_workspace-IsConfined_example =
    apply_workspace-IsConfined same_path stays stays [] false workspace project
