-- ===== src/Preferences/Defaults.antt =====
-- The built-in shortcuts, frontend/src/config/shortcuts.ts, as frontend/src/shared/stores/
-- preferences.store.ts gathers them in `DEFAULT_SHORTCUTS`.
use yanta.Prelude.{String, List, [], ◌∷◌, ◌++◌}

pub record ShortcutDef : Type 0 where
  pub key : String
  pub description : String

abbrev def : String → String → ShortcutDef
def k d = record { key = k; description = d }

abbrev pub Defs : Type 0
Defs = List (String × ShortcutDef)

abbrev pub global_shortcuts : Defs
global_shortcuts =
    ("help", def "shift+/" "Toggle help")
    ∷ ("quit", def "ctrl+q" "Quit (background if enabled)")
    ∷ ("forceQuit", def "ctrl+shift+q" "Force quit application")
    ∷ ("commandPalette", def "mod+K" "Open command palette")
    ∷ ("globalSearch", def "mod+shift+F" "Search all documents")
    ∷ ("today", def "mod+T" "Jump to today's journal")
    ∷ ("switchProject", def "ctrl+Tab" "Switch to last project")
    ∷ ("projectSwitcher", def "mod+shift+K" "Switch project")
    ∷ ("navBack", def "alt+ArrowLeft" "Go back")
    ∷ ("navForward", def "alt+ArrowRight" "Go forward")
    ∷ ("gitSync", def "mod+shift+S" "Sync to git remote")
    ∷ []

abbrev pub sidebar_shortcuts : Defs
sidebar_shortcuts = ("toggle", def "ctrl+b" "Toggle sidebar") ∷ []

abbrev pub document_shortcuts : Defs
document_shortcuts =
    ("save", def "mod+s" "Save document")
    ∷ ("documentSearch", def "mod+F" "Find in document")
    ∷ ("documentReplace", def "mod+H" "Replace in document")
    ∷ ("exportMd", def "mod+e" "Export to Markdown")
    ∷ ("exportPdf", def "mod+shift+e" "Export to PDF")
    ∷ ("back", def "Escape" "Unfocus editor, or go back to dashboard")
    ∷ ("unfocus", def "mod+shift+C" "Unfocus editor")
    ∷ ("focusEditor", def "Enter" "Focus editor when unfocused")
    ∷ ("deleteBlock", def "ctrl+d" "Delete block (Document page)")
    ∷ ("moveBlockUp", def "mod+shift+ArrowUp" "Move block up")
    ∷ ("moveBlockDown", def "mod+shift+ArrowDown" "Move block down")
    ∷ ("duplicateBlock", def "mod+shift+D" "Duplicate block")
    ∷ ("toggleOutline", def "mod+shift+O" "Toggle document outline")
    ∷ []

abbrev pub dashboard_shortcuts : Defs
dashboard_shortcuts =
    ("newDocument", def "mod+N" "Create new document")
    ∷ ("toggleArchived", def "mod+shift+A" "Toggle archived documents view")
    ∷ ("selectAll", def "mod+A" "Select all documents")
    ∷ ("permanentDelete", def "mod+shift+D" "Permanently delete selected documents")
    ∷ ("toggleSelection", def "Space" "Select/deselect highlighted document")
    ∷ ("openHighlighted", def "Enter" "Open highlighted document")
    ∷ ("highlightNext", def "j" "Highlight next document")
    ∷ ("highlightPrev", def "k" "Highlight previous document")
    ∷ ("navigateDown", def "ArrowDown" "Navigate down")
    ∷ ("navigateUp", def "ArrowUp" "Navigate up")
    ∷ ("move", def "mod+M" "Move selected documents to another project")
    ∷ ("archive", def "mod+D" "Archive selected documents")
    ∷ ("restore", def "mod+U" "Restore archived documents")
    ∷ ("exportMd", def "mod+E" "Export selected documents to markdown")
    ∷ ("exportPdf", def "mod+shift+E" "Export selected documents to PDF")
    ∷ []

abbrev pub journal_shortcuts : Defs
journal_shortcuts =
    ("nextDay", def "ctrl+n" "Next day")
    ∷ ("prevDay", def "ctrl+p" "Previous day")
    ∷ ("arrowNextDay", def "ArrowRight" "Next day")
    ∷ ("arrowPrevDay", def "ArrowLeft" "Previous day")
    ∷ ("highlightNext", def "j" "Highlight next entry")
    ∷ ("highlightPrev", def "k" "Highlight previous entry")
    ∷ ("navigateDown", def "ArrowDown" "Navigate down")
    ∷ ("navigateUp", def "ArrowUp" "Navigate up")
    ∷ ("toggleSelection", def "Space" "Select/deselect highlighted entry")
    ∷ ("delete", def "mod+D" "Delete selected entries")
    ∷ ("promote", def "mod+shift+p" "Promote selected entries to document")
    ∷ []

abbrev pub projects_shortcuts : Defs
projects_shortcuts =
    ("newProject", def "mod+N" "Create new project")
    ∷ ("selectNext", def "j" "Select next project")
    ∷ ("selectPrev", def "k" "Select previous project")
    ∷ ("arrowDown", def "ArrowDown" "Select next project")
    ∷ ("arrowUp", def "ArrowUp" "Select previous project")
    ∷ ("switchToSelected", def "Enter" "Switch to selected project")
    ∷ ("selectAll", def "mod+A" "Select all projects")
    ∷ ("archive", def "" "Archive selected project")
    ∷ ("restore", def "mod+U" "Restore archived project")
    ∷ ("delete", def "mod+D" "Delete selected project")
    ∷ ("permanentDelete", def "mod+shift+D" "Permanently delete selected project")
    ∷ ("toggleArchivedProjects", def "ctrl+shift+a" "Toggle show archived (Projects page)")
    ∷ []

abbrev pub quick_capture_shortcuts : Defs
quick_capture_shortcuts =
    ("save", def "ctrl+enter" "Save and close")
    ∷ ("saveAndStay", def "shift+enter" "Save and stay")
    ∷ ("cancel", def "Escape" "Cancel / discard")
    ∷ []

abbrev pub settings_shortcuts : Defs
settings_shortcuts =
    ("navNext", def "j" "Next section") ∷ ("navPrev", def "k" "Previous section") ∷ []

abbrev pub command_line_shortcuts : Defs
command_line_shortcuts =
    ("focusCommandLine", def ":" "Focus command line")
    ∷ ("exitCommandLine", def "Esc" "Exit command line")
    ∷ []

abbrev pub search_shortcuts : Defs
search_shortcuts =
    ("focusInput", def "/" "Focus search input (Search page)")
    ∷ ("toResults", def "Tab" "Move to results (Search page)")
    ∷ ("navigateDown", def "j" "Navigate down results (Search page)")
    ∷ ("navigateUp", def "k" "Navigate up results (Search page)")
    ∷ ("open", def "Enter" "Open selected search result")
    ∷ ("unfocus", def "Esc" "Unfocus search input (Search page)")
    ∷ []

abbrev pub pane_shortcuts : Defs
pane_shortcuts =
    ("documentPicker", def "alt+O" "Toggle document picker overlay")
    ∷ ("splitRight", def "mod+\\" "Split pane right")
    ∷ ("splitDown", def "mod+shift+\\" "Split pane down")
    ∷ ("close", def "alt+x" "Close pane")
    ∷ ("focusLeft", def "alt+h" "Focus pane left")
    ∷ ("focusDown", def "alt+j" "Focus pane down")
    ∷ ("focusUp", def "alt+k" "Focus pane up")
    ∷ ("focusRight", def "alt+l" "Focus pane right")
    ∷ ("focusMode", def "alt+z" "Toggle focus mode (dim surrounding blocks)")
    ∷ []

abbrev pub quick_capture_default : ShortcutDef
quick_capture_default = def "ctrl+shift+n" "Open Quick Capture"

abbrev pub default_shortcuts : List (String × Defs)
default_shortcuts =
    ("global", global_shortcuts)
    ∷ ("sidebar", sidebar_shortcuts)
    ∷ ("document", document_shortcuts)
    ∷ ("dashboard", dashboard_shortcuts)
    ∷ ("journal", journal_shortcuts)
    ∷ ("projects", projects_shortcuts)
    ∷ ("quickCapture", quick_capture_shortcuts ++ (("default", quick_capture_default) ∷ []))
    ∷ ("settings", settings_shortcuts)
    ∷ ("commandLine", command_line_shortcuts)
    ∷ ("search", search_shortcuts)
    ∷ ("pane", pane_shortcuts)
    ∷ []
