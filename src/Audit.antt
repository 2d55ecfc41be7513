-- ===== src/Audit.antt =====
-- tools/workflow-yaml-audit.py: the static audit of the workflows and the mobile tree.
pub mod Repo
pub mod Comments
pub mod Versions
pub mod Workflow
pub mod PubGet
pub mod Gradle
pub mod Tracked
pub mod Strip
pub mod Body
pub mod Needs
pub mod App
pub mod Literals
pub mod Pubspec
