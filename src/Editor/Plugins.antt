-- ===== src/Editor/Plugins.antt =====
-- static/lib/editormd/plugins: the Markdown that the dialogs put into the text.
pub mod Table
