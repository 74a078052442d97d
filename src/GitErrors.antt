-- ===== src/GitErrors.antt =====
-- What is made of an error of git, frontend/src/shared/utils/gitErrorParser.ts: the first rule one
-- of whose markers is in the text.  Titles are without the invisible selector of a sign's style.
pub mod Recognition
pub mod Examples
use Prim.Native.String
use yanta.Prelude.{Bool, ◌||◌, Option, none, some, List, [], ◌∷◌, String, any, find}
use text.Mathlib.Text.{starts_with}

pub record ParsedGitError : Type 0 where
  pub kind : String
  pub title : String
  pub message : String
  pub technical_details : String
  pub suggestions : List String

-- A condition of `parseGitError` with what it returns, but for the details.
pub record Rule : Type 0 where
  pub markers : List String
  pub kind : String
  pub title : String
  pub message : String
  pub suggestions : List String

-- `text.includes(marker)`
pub includes : String → String → Bool
includes String.[] marker = starts_with String.[] marker
includes (String.◌∷◌ c text) marker = starts_with (String.◌∷◌ c text) marker || includes text marker

abbrev pub rules : List Rule
rules =
    record {
      markers = "GIT_NOT_ENABLED" ∷ [];
      kind = "CONFIG";
      title = "Git Sync Not Enabled";
      message = "Git sync is not configured for this project.";
      suggestions =
          "Go to Settings → Git Sync" ∷ "Enable git sync" ∷ "Configure your repository path" ∷ [];
    }
    ∷ record {
      markers = "NOT_A_REPO" ∷ [];
      kind = "CONFIG";
      title = "Not a Git Repository";
      message = "The data directory is not initialized as a git repository.";
      suggestions =
          "Go to Settings → Git Sync" ∷ "Click 'Migrate to Git Directory'"
          ∷ "Select a git repository folder" ∷ [];
    }
    ∷ record {
      markers = "REBASE_CONFLICT" ∷ [];
      kind = "CONFLICT";
      title = "Sync paused — conflicting edits";
      message =
          "The same notes were changed on another device. Your local notes are safe and were left untouched — the sync was rolled back automatically.";
      suggestions =
          "Try 'Sync Now' again — transient conflicts often clear on the next sync"
          ∷ "If it keeps happening, the same note was edited on two devices and needs a manual merge"
          ∷ "Open the data directory and run 'git pull --rebase', resolve the marked files, then 'git rebase --continue'"
          ∷ [];
    }
    ∷ record {
      markers = "MERGE_CONFLICT" ∷ [];
      kind = "CONFLICT";
      title = "⚠ Merge Conflicts Detected";
      message = "Local and remote changes conflict. You need to resolve them manually.";
      suggestions =
          "Open your data directory in a terminal or git client"
          ∷ "Run 'git status' to see conflicted files"
          ∷ "Edit files to resolve conflicts (look for <<<<<<<, =======, >>>>>>>)"
          ∷ "Stage resolved files: git add <file>" ∷ "Complete the merge: git commit" ∷ [];
    }
    ∷ record {
      markers = "DIVERGED_BRANCHES" ∷ [];
      kind = "CONFLICT";
      title = "⚠ Branches Have Diverged";
      message =
          "Your local branch and remote branch have different commits. You need to reconcile them.";
      suggestions =
          "Run 'Git Pull' to fetch and merge remote changes"
          ∷ "Or manually merge/rebase in your git client" ∷ "Then push your changes" ∷ [];
    }
    ∷ record {
      markers = "PUSH_REJECTED" ∷ "non-fast-forward" ∷ [];
      kind = "SYNC";
      title = "🔄 Push Rejected - Pull Required";
      message = "Remote has changes you don't have locally. Pull first, then push.";
      suggestions =
          "Run 'Git Pull' to fetch and merge remote changes" ∷ "Resolve any conflicts if they occur"
          ∷ "Then run 'Git Push' again" ∷ [];
    }
    ∷ record {
      markers = "UNRELATED_HISTORIES" ∷ "refusing to merge unrelated histories" ∷ [];
      kind = "CONFIG";
      title = "Unrelated Commit Histories";
      message = "Local and remote repositories have completely different histories.";
      suggestions =
          "This usually happens when repositories were created separately"
          ∷ "You may need to use --allow-unrelated-histories"
          ∷ "Or start fresh by cloning the remote repository" ∷ [];
    }
    ∷ record {
      markers = "PUSH_FAILED" ∷ "Connection" ∷ "timed out" ∷ [];
      kind = "NETWORK";
      title = "🌐 Connection Failed";
      message = "Cannot connect to remote repository.";
      suggestions =
          "Check your internet connection" ∷ "Verify SSH keys or credentials are configured"
          ∷ "Check if remote repository URL is correct"
          ∷ "Try accessing the remote repository in a browser/terminal" ∷ [];
    }
    ∷ record {
      markers = "nothing to commit" ∷ [];
      kind = "INFO";
      title = "✓ Already Up to Date";
      message = "No changes to sync.";
      suggestions = [];
    }
    ∷ record {
      markers = "Already up to date" ∷ "Already up-to-date" ∷ [];
      kind = "INFO";
      title = "✓ Already Up to Date";
      message = "Your local repository is already synchronized with remote.";
      suggestions = [];
    }
    ∷ []

abbrev pub matches : String → Rule → Bool
matches text rule = any (includes text) rule.markers

abbrev pub report : String → Option Rule → ParsedGitError
report text (some rule) = record {
  kind = rule.kind;
  title = rule.title;
  message = rule.message;
  technical_details = text;
  suggestions = rule.suggestions;
}
report text none = record {
  kind = "UNKNOWN";
  title = "Git Operation Failed";
  message = "An unexpected git error occurred.";
  technical_details = text;
  suggestions =
      "Check the technical details below" ∷ "Try running the operation again"
      ∷ "Check git configuration and repository status" ∷ [];
}

unfoldable pub parse_git_error : String → ParsedGitError
parse_git_error text = report text (find (matches text) rules)
