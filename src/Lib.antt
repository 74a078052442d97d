-- ===== src/Lib.antt =====
-- The state of yanta's frontend, as the code under frontend/src keeps it.
--
-- The parts, and the files that model them:
--
-- * The pane layout (frontend/src/pane): a binary tree whose leaves show documents. Pane.antt
--   holds the tree (types.ts), its queries (utils/paneTreeQueries.ts) and its mutations
--   (utils/paneTreeMutations.ts); Pane/Navigation.antt is utils/paneNavigation.ts, Pane/Ids.antt is
--   utils/paneId.ts, and Pane/Reducer.antt is the reducer of context/PaneLayoutContext.tsx. The
--   source's mutations give back the very tree that they were given if nothing changed, and the
--   reducer tests for that by `===`: a mutation here gives `none` then, and `kept` reads the result.
--   An id is drawn from a counter and from `Date.now()`: the clock is a parameter, a function from
--   the counter, of which nothing is assumed, and the counter is passed along. The sizes of a split
--   and the scroll offsets are passed through unread; natural numbers stand for them.
--   The laws are under Pane: Occurrences (how often a tree has an id), Edits, Documents, Splitting,
--   Closing, Navigation/Cycle, Navigation/Direction, Ids/Unique, and Reducer/Validity, Focus, Steps
--   and Opening.
-- * The editor's contribution registries
--   (frontend/src/editor/extensions/registry/editorExtensionRegistry.ts): eight maps from plugins to
--   what they contribute, each with a cached snapshot. EditorRegistry/Slots.antt is one registry with
--   its snapshot, EditorRegistry.antt the eight with their version; Coherence, Snapshots and Removal
--   hold the laws. The listeners that `emitChange` calls are React's and are not modelled. An order
--   of a slash menu item is a natural number.
-- * The recent documents (frontend/src/shared/stores/recentDocuments.store.ts): Recents.antt, with
--   Recents/Invariant.antt and Recents/Actions.antt. The time of a call is part of the new document;
--   what the backend answers for a path is a parameter of the refresh.
-- * The navigation history (frontend/src/shared/stores/navHistory.store.ts): NavHistory.antt, and in
--   NavHistory/Mirror.antt the pages behind and ahead that the store is to mirror, moved as the
--   source's comments describe.
-- * The Escape handlers (frontend/src/shared/stores/escapeRegistry.store.ts): EscapeRegistry.antt and
--   EscapeRegistry/Order.antt. A handler is a function of the event, whose type is a parameter.
-- * Auto save (frontend/src/shared/hooks/useAutoSave.ts): AutoSave.antt is the hook's refs and states
--   with an event for each thing that can happen, in any order; how long a timer waits is left out.
--   AutoSave/Soundness.antt and AutoSave/Progress.antt hold the laws.
-- * Save errors (frontend/src/shared/stores/saveError.store.ts): SaveErrors.antt, with
--   SaveErrors/Isolation.antt.
-- * The plugin host (frontend/src/plugins/registry.ts): Plugins.antt. A plugin's setup is data: the
--   calls of its API, whether it catches what they throw, and how it ends. The tests of an entry and
--   of an API version are parameters, as is the backend's supported version. Plugins/Soundness.antt
--   and Plugins/Steps.antt hold the invariant, Plugins/Recovery.antt unloading and recovery.
-- * Hotkeys (frontend/src/hotkeys/utils/hotkeyMatcher.ts): Hotkeys.antt, with Hotkeys/Eligibility.antt
--   and Hotkeys/Matching.antt; Hotkeys/Dispatch.antt is the dispatch of
--   frontend/src/hotkeys/context/useHotkeyProviderValue.ts, with its children. A combination is the
--   list of its parts, already split, trimmed and in lower case, and an event carries its key in lower
--   case too.
-- * Errors of git (frontend/src/shared/utils/gitErrorParser.ts): GitErrors.antt holds the conditions of
--   parseGitError as a table in their order, and GitErrors/Recognition.antt the laws.
-- * Tooltips (frontend/src/shared/stores/tooltipUsage.store.ts): Tooltips.antt and
--   Tooltips/Fading.antt.
-- * Blocks (frontend/src/editor/utils/blockSanitize.ts, frontend/src/shared/utils/contentHash.ts):
--   Blocks.antt, with Blocks/Quarantine.antt and Blocks/Hashing.antt. JSON's printer and parser are
--   parameters.
-- * Finding (frontend/src/editor/find/findMatches.ts and findPlugin.ts): Find.antt has the search, on
--   texts as lists of code units and on fuel for the length of a run of text, which is enough since a
--   match is not empty; Find/Occurrences.antt has the loop of `flush`, Find/Runs.antt and its children
--   the runs of text and their positions, Find/Plugin.antt the plugin's state.
-- * The palette's commands (frontend/src/command-palette/utils/commandSorting.ts,
--   frontend/src/shared/stores/commandUsage.store.ts): Commands.antt, with Commands/Order.antt and
--   Commands/Usage.antt.
-- * Stored layouts (frontend/src/pane/utils/paneLayoutValidation.ts,
--   frontend/src/shared/stores/paneLayout.store.ts): Pane/Storage.antt, with Pane/Storage/Saved.antt.
--   A stored tree may lack any field.
-- * The log (frontend/src/shared/utils/backendLogger.ts): Logger.antt, with Logger/Kept.antt and
--   Logger/RateLimit.antt.
-- * Navigation (frontend/src/app/hooks/useNavGuard.tsx, useLeaderKeys.ts): NavGuard.antt, which the
--   flag of the save errors holds back, and LeaderKeys.antt.
-- * Projects (frontend/src/shared/stores/project.store.ts): Projects.antt, with Projects/Laws.antt.
-- * Text direction (frontend/src/editor/extensions/rtl/textDirection.ts): TextDirection.antt, with
--   TextDirection/Settled.antt.
-- * Preferences (frontend/src/config/preferences.ts, shared/services/ConfigService.ts,
--   shared/stores/preferences.store.ts): Preferences.antt has both conversions between the page's
--   overrides and the backend's model, and what is sent; Preferences/Defaults.antt and
--   Preferences/Merge.antt the built-in values (config/shortcuts.ts, timeouts.ts, layout.ts) and the
--   merge, Preferences/Store.antt the store. Preferences/Groups.antt, RoundTrip, Saving and Deleting
--   hold the laws. The backend is taken to give back what it was sent.
-- * Stores that the browser's storage keeps: Json.antt has JSON's values; Persist.antt the order in
--   which zustand's `persist` calls a storage, with the law that a storage which gives each state
--   back is not seen; Progress.antt (frontend/src/shared/stores/progress.store.ts) and
--   Onboarding.antt (onboarding.store.ts) are its clients. JSON.parse and JSON.stringify are
--   parameters, and that the one gives back what the other printed of a state is a hypothesis.
--   DocumentSort.antt (frontend/src/dashboard/hooks/useDocumentSort.ts) and Sync.antt
--   (frontend/src/shared/stores/sync.store.ts) read and write the storage themselves. Writing to the
--   storage does not fail.
-- * The finder (frontend/src/search-index): SearchIndex.antt is when its index is built, from changes
--   of the vault, debounces and exports, with SearchIndex/Fresh.antt; SearchIndex/Query.antt is how
--   searchIndex.store.ts answers a parsed query, with SearchIndex/Answers.antt and Filters; MiniSearch
--   and the browser's functions of texts are parameters. SearchIndex/Parser.antt is queryParser.ts on
--   code units, with Parser/Phrases.antt, Parser/Tokens.antt and Parser/RoundTrip.antt on queries that
--   are written from items, and Parser/Finder.antt, which puts the parser before the answers; that
--   `toLowerCase` keeps the plain letters an operator consists of is a hypothesis. Snippet.antt is
--   snippet.ts on code units, with Snippet/Escaping.antt and Snippet/Marks.antt.
-- * Leaving a canvas (frontend/src/document/hooks/useCanvasEscapeSequence.ts): CanvasEscape.antt, with
--   CanvasEscape/Gestures.antt.
-- Prelude.antt passes on the library's names, with tests, lists measured by native numbers,
-- dictionaries as JavaScript's maps (in insertion order), and a stable sort. Decimal.antt prints a
-- number as JavaScript does.
--
-- Bounds and fuel: Decimal.show takes fuel, one more than the number, and a number has no more
-- digits than that; Decimal/Laws.antt reads the digits back. Find.find_all takes one more than the
-- length of the text that is searched. All other loops recur on their lists and trees. MAX_PANES
-- is 4 (frontend/src/config/layout.ts).
--
-- Not modelled: React's components and effects, which render what the stores hold; storage in the
-- browser, beyond what is read back from it; the services in Go behind frontend/bindings, whose
-- answers are parameters; the controllers of documents, dashboard and journal
-- (frontend/src/document/hooks/useDocumentController.ts, dashboard, journal) and the pages of the
-- settings, hooks of React that tie the views to the stores and to calls of the backend;
-- and the plugins themselves.
pub mod Preferences
pub mod CanvasEscape
pub mod SearchIndex
pub mod Snippet
pub mod DocumentSort
pub mod Sync
pub mod Json
pub mod Persist
pub mod Onboarding
pub mod Progress
pub mod Prelude
pub mod Decimal
pub mod Find
pub mod Pane
pub mod EditorRegistry
pub mod Recents
pub mod NavHistory
pub mod EscapeRegistry
pub mod AutoSave
pub mod SaveErrors
pub mod Plugins
pub mod GitErrors
pub mod Hotkeys
pub mod Projects
pub mod NavGuard
pub mod LeaderKeys
pub mod Logger
pub mod TextDirection
pub mod Tooltips
pub mod Blocks
pub mod Commands
