-- ===== src/Publish/Git.antt =====
-- apps/scraper/publish.py: `publish_changes` over the answers of git, with the commands that it runs.
use dsa_api.Base.{Bool, not, List, [], ◌∷◌, ◌++◌, if◌then◌else◌}
use dsa_api.Text.{Text, text, is_empty, strip, contains}

-- A finished process; `succeeded` is that its return code is 0.
pub record Process : Type 0 where
  pub succeeded : Bool
  pub stdout : Text
  pub stderr : Text

-- The commands, by what varies in them.
pub data Command : Type 0 where
  config_name : Text → Command
  config_email : Text → Command
  status_data : Command
  add_data : Command
  commit_with : Text → Command
  push_to : (remote branch : Text) → Command

-- How it ends: True, False, or the step whose `PublishError` is raised.
pub data Published : Type 0 where
  pushed : Published
  unchanged : Published
  no_repository : Published
  add_failed : Published
  commit_failed : Published
  push_failed : Published

pub record Publication : Type 0 where
  pub branch : Text
  pub committer_name : Text
  pub committer_email : Text
  pub message : Text
  pub remote : Text

-- `git` is what a command does in the export directory.
module _ (git : Command → Process) where
  unfoldable pub has_local_changes : Bool
  has_local_changes = not (is_empty (strip (git status_data).stdout))

  abbrev pub says_nothing : Process → Bool
  says_nothing commit = contains (text "nothing to commit") (commit.stdout ++ commit.stderr)

  unfoldable pub push_commit : Publication → List Command × Published
  push_commit p = (
    push_to p.remote p.branch ∷ [],
    (if (git (push_to p.remote p.branch)).succeeded then pushed else push_failed),
  )

  unfoldable pub commit_data : Publication → List Command × Published
  commit_data p =
      let commit = git (commit_with p.message) in
      let further = push_commit p in
      if commit.succeeded
      then (commit_with p.message ∷ further.0, further.1)
      else (commit_with p.message ∷ [], (if says_nothing commit then unchanged else commit_failed))

  unfoldable pub stage_data : Publication → List Command × Published
  stage_data p =
      let further = commit_data p in
      if (git add_data).succeeded
      then (add_data ∷ further.0, further.1)
      else (add_data ∷ [], add_failed)

  -- `is_repository` is that the directory has a `.git`.
  unfoldable pub publish_changes : (is_repository : Bool) → Publication → List Command × Published
  publish_changes is_repository p =
      let identity =
        config_name p.committer_name ∷ config_email p.committer_email ∷ status_data ∷ [] in
      let further = stage_data p in
      if is_repository
      then (if has_local_changes then (identity ++ further.0, further.1) else (identity, unchanged))
      else ([], no_repository)
