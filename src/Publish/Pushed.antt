-- ===== src/Publish/Pushed.antt =====
-- apps/scraper/publish.py, `publish_changes`: when a push is tried, and when it ends with one.
use dsa_api.Base.{◌≡◌, Bool, true, false, List, [], ◌∷◌, if◌then◌else◌}
use dsa_api.Publish.Git.{
  Process, Command, add_data, commit_with, push_to, Publication, has_local_changes,
}

-- The last command is a push.
abbrev pub is_push : Command → Bool
is_push (push_to remote branch) = true
is_push _ = false

abbrev pub tries_push : List Command → Bool
tries_push [] = false
tries_push (c ∷ cs) = if is_push c then true else tries_push cs

-- The steps up to the commit went well.
abbrev pub IsCommitted : (Command → Process) → Bool → Publication → Type 0
IsCommitted git is_repository p =
    (is_repository ≡ true)
    × (has_local_changes git ≡ true)
    × ((git add_data).succeeded ≡ true)
    × ((git (commit_with p.message)).succeeded ≡ true)
