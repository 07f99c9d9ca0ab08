-- ===== src/Publish/Tests.antt =====
-- A publication whose push is refused.
use dsa_api.Base.{◌≡◌, refl, true, false, [], ◌∷◌}
use dsa_api.Text.{text, is_space, strip, lstrip, rstrip, starts_with, contains}
use dsa_api.Publish.Git.{
  Process, Command, config_name, config_email, status_data, add_data, commit_with, push_to,
  push_failed, Publication, has_local_changes, push_commit, commit_data, stage_data,
  publish_changes,
}

program : Unit {0}
unfolding is_space strip lstrip rstrip starts_with contains has_local_changes push_commit
    commit_data stage_data publish_changes
program = tt

abbrev git : Command → Process
git status_data = record { succeeded = true; stdout = text " M data/changelog.json"; stderr = [] }
git (push_to remote branch) = record { succeeded = false; stdout = []; stderr = text "rejected" }
git other = record { succeeded = true; stdout = []; stderr = [] }

abbrev publication : Publication
publication = record {
  branch = text "main";
  committer_name = text "bot";
  committer_email = text "bot@x.eu";
  message = text "data";
  remote = text "origin";
}

push-rejected : publish_changes git true publication ≡ (
  config_name (text "bot")
      ∷ config_email (text "bot@x.eu")
      ∷ status_data
      ∷ add_data
      ∷ commit_with (text "data")
      ∷ push_to (text "origin") (text "main")
      ∷ [],
  push_failed,
)
unfolding program
push-rejected = refl
