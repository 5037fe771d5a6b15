-- ===== src/Editor/Layout/Saved/Runs.antt =====
-- The timeouts of an editor, and every call.
use study_tech.Editor.Text.{Text}
use study_tech.Editor.State.{Layout}
