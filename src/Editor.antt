-- ===== src/Editor.antt =====
-- static/lib/editormd/editormd.js: the toolbar's handlers on CodeMirror, and the layout.
pub mod Text
pub mod CodeMirror
pub mod Toolbar
pub mod State
pub mod Layout
pub mod Loading
pub mod Toc
pub mod Date
pub mod Plugins
mod Tests
mod LayoutTests
mod ContentTests
