-- ===== src/Examples/Manifests.antt =====
-- The manifest of one server, and a write of it that fails.
use mcpshim.Prelude.{
  ◌≡◌, refl, true, false, some, [], ◌∷◌, map, if◌then◌else◌, is_some, Text, codes, text_eq, Map,
  lookup, all, split, is_one_of,
}
use mcpshim.HttpBinding.Listing.{ToolInfo}
use mcpshim.Mcp.Overview.{ServerInfo}
use mcpshim.Manifest.{
  Snapshot, heading, render, manifest_text, endpoint_lines, listing_lines, render_server,
  status_lines,
}
use mcpshim.Manifest.Lines.{headings, is_line, headings-manifest_text}
use mcpshim.Manifest.Texts.{summarize, sorted_keys, shell_safe}
use mcpshim.Manifest.Texts.Bounds.{IsSummary, summarize-IsSummary}
use mcpshim.Manifest.Files.{FileCalls, temporary, atomic_write}
use mcpshim.Manifest.Files.Whole.{atomic_write-whole}

abbrev notes_info : ServerInfo
notes_info = record {
  name = codes "notes";
  alias = [];
  kind = codes "mcp";
  url = codes "https://n.io/mcp";
  transport = codes "http";
  has_auth = false;
  status = codes "healthy";
  last_error = [];
  last_success_at = 4;
  attempt_count = 0;
}

abbrev searching : ToolInfo
searching = record {
  server = codes "notes";
  name = codes "find";
  description = codes "<x>\n Finds notes. \nMore.";
  required = codes "q" ∷ [];
  properties = codes "q" ∷ codes "page" ∷ [];
}

abbrev one_server : Snapshot
one_server = record {
  generated = codes "2026-01-01T00:00:00Z";
  servers = notes_info ∷ [];
  tools = (codes "notes", searching ∷ []) ∷ [];
  config_by = [];
}

one_server_lines : all (render one_server) is_line ≡ true
unfolding render render_server text_eq endpoint_lines status_lines is_one_of listing_lines
one_server_lines = refl

headings-manifest_text_example :
    headings (split 10 (manifest_text one_server))
    ≡ codes "## Quick reference" ∷ map heading one_server.servers
headings-manifest_text_example = headings-manifest_text one_server one_server_lines

summarize_example : IsSummary (summarize (codes "<x>\n Finds notes. \nMore."))
summarize_example = summarize-IsSummary (codes "<x>\n Finds notes. \nMore.")

summary_run : summarize (codes "<x>\n Finds notes. \nMore.") ≡ codes "Finds notes."
unfolding summarize
summary_run = refl

keys_run :
    sorted_keys (codes "B" ∷ codes "A" ∷ codes "AB" ∷ []) ≡ codes "A" ∷ codes "AB" ∷ codes "B" ∷ []
unfolding sorted_keys
keys_run = refl

safe_run : shell_safe (codes "a b") ≡ codes "\"a b\""
unfolding shell_safe
safe_run = refl

abbrev full_disk : FileCalls
full_disk = record { made = true; written = false; partial = some (codes "# MC"); renamed = false }

abbrev old_file : Map Text
old_file = (codes "m.md", codes "old") ∷ []

atomic_write_example :
    (lookup (codes "m.md") (atomic_write full_disk (codes "m.md") (codes "new") old_file).1 ≡ (
      if is_some (atomic_write full_disk (codes "m.md") (codes "new") old_file).0
      then lookup (codes "m.md") old_file
      else some (codes "new")))
    × ((j : Text)
        → text_eq (codes "m.md") j ≡ false
        → text_eq (temporary (codes "m.md")) j ≡ false
        → lookup j (atomic_write full_disk (codes "m.md") (codes "new") old_file).1
          ≡ lookup j old_file)
atomic_write_example = atomic_write-whole full_disk (codes "m.md") (codes "new") old_file
