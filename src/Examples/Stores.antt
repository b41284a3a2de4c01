-- ===== src/Examples/Stores.antt =====
-- The call history and the OAuth state, and what the daemon does to it.
use mcpshim.Prelude.{
  ℕ, ◌+◌, ◌≡◌, refl, true, false, not, ◌&&◌, ◌||◌, none, some, [], ◌∷◌, ◌++◌, if◌then◌else◌,
  is_empty, length, keep, codes, text_eq, lookup, delete, pos, ok, All, arith,
}
use mcpshim.Config.Types.{McpServer}
use mcpshim.Config.Expand.{Env}
use mcpshim.Mcp.Registry.{find_server}
use mcpshim.Store.History.{
  Row, Table, Outcome, insert_history, list_history, clear_history, list_limit, selects, insert_row,
  prune_rows,
}
use mcpshim.Store.History.Order.{last_rows}
use mcpshim.Store.History.Bounded.{
  IsOrdered, new_row, retained, insert_history-retained, list_history-last_rows,
  clear_history-removes,
}
use mcpshim.Store.Tokens.{
  OAuthClient, Token, OAuthTables, delete_tokens, delete_keys, delete_oauth_client,
}
use mcpshim.Daemon.{Deletions, Digest, token_store_key, has_stored_state, logout}
use mcpshim.Daemon.Logout.{logout-clears, logout-exactly}
use mcpshim.Examples.Configs.{notes_server}

abbrev first_row : Row ℕ
first_row = record { id = 1; server = codes "a"; tool = codes "t"; payload = 7 }

abbrev second_row : Row ℕ
second_row = record { id = 2; server = codes "b"; tool = codes "t"; payload = 8 }

abbrev two_rows : Table ℕ
two_rows = record { rows = first_row ∷ second_row ∷ []; next_id = 3 }

two_rows-IsOrdered : IsOrdered two_rows
two_rows-IsOrdered = record { ascending = ground arith; fresh = ground arith }

abbrev every_call : Outcome
every_call = record { marshal = true; begin = true; insert = true; prune = true; commit = true }

abbrev pruned_rows : Table ℕ
pruned_rows = record {
  rows = second_row ∷ record { id = 3; server = codes "a"; tool = codes "u"; payload = 9 } ∷ [];
  next_id = 4;
}

insert_run : insert_history (codes "a") (codes "u") 9 (pos 2) every_call two_rows ≡ ok pruned_rows
unfolding insert_history prune_rows insert_row
insert_run = refl

insert_history_retained_example :
    (pruned_rows.rows
      ≡ retained (pos 2) (two_rows.rows ++ new_row (codes "a") (codes "u") 9 two_rows ∷ []))
    × IsOrdered pruned_rows
insert_history_retained_example =
    insert_history-retained (codes "a") (codes "u") 9 (pos 2) every_call two_rows pruned_rows
      two_rows-IsOrdered insert_run

list_history_example :
    list_history (codes "a") [] (pos 10) true two_rows
    ≡ ok (last_rows (list_limit (pos 10)) (keep (selects (codes "a") []) two_rows.rows))
list_history_example = list_history-last_rows (codes "a") [] (pos 10) two_rows two_rows-IsOrdered

abbrev second_only : Table ℕ
second_only = record { rows = second_row ∷ []; next_id = 3 }

clear_run : clear_history (codes "a") [] false true two_rows ≡ ok (1, second_only)
unfolding clear_history text_eq
clear_run = refl

clear_history_example :
    (1 + length second_only.rows ≡ length two_rows.rows)
    × All (λ r. selects (codes "a") [] r ≡ false) second_only.rows
    × (keep (λ r. not (selects (codes "a") [] r)) second_only.rows
        ≡ keep (λ r. not (selects (codes "a") [] r)) two_rows.rows)
    × IsOrdered second_only
    × (false ≡ (is_empty (codes "a") && is_empty {A = ℕ} []))
clear_history_example =
    clear_history-removes (codes "a") [] false 1 two_rows second_only two_rows-IsOrdered clear_run

abbrev no_variables : Env
no_variables = λ name. none

abbrev same_digest : Digest
same_digest = λ url. url

abbrev moved_server : McpServer
moved_server = record notes_server { url = codes "https://b" }

abbrev notes_token : Token
notes_token = record { access_token = codes "s"; refresh_token = [] }

abbrev notes_client : OAuthClient
notes_client = record { client_id = codes "i"; client_secret = codes "c" }

abbrev notes_tables : OAuthTables
notes_tables = record {
  tokens = (codes "notes:https://a", notes_token) ∷ (codes "notes", notes_token) ∷ [];
  clients = (codes "notes", notes_client) ∷ [];
}

abbrev both_deleted : Deletions
both_deleted = record { tokens = true; client = true }

abbrev no_tables : OAuthTables
no_tables = record { tokens = []; clients = [] }

notes_found : find_server (notes_server ∷ []) (codes "n") ≡ some notes_server
unfolding find_server text_eq
notes_found = refl

logout_run :
    logout no_variables same_digest
      (notes_server ∷ [])
      both_deleted
      (codes "n")
      true
      (some notes_tables)
    ≡ ok no_tables
unfolding logout find_server text_eq delete_oauth_client delete_tokens delete delete_keys
    token_store_key
logout_run = refl

logout_clears_example :
    has_stored_state no_variables same_digest notes_server no_tables ≡ (false, no_tables)
logout_clears_example =
    logout-clears no_variables same_digest (notes_server ∷ []) both_deleted (codes "n") notes_tables
      no_tables notes_server notes_found refl logout_run

logout_exactly_example :
    (lookup (codes "x") no_tables.tokens ≡ (
      if (text_eq (token_store_key no_variables same_digest notes_server) (codes "x")
          || text_eq notes_server.name (codes "x"))
        && not (is_empty (codes "x"))
      then none
      else lookup (codes "x") notes_tables.tokens))
    × (no_tables.clients
        ≡ (if true then delete notes_server.name notes_tables.clients else notes_tables.clients))
logout_exactly_example =
    logout-exactly no_variables same_digest (notes_server ∷ []) both_deleted (codes "n") true
      notes_tables no_tables notes_server (codes "x") notes_found logout_run

abbrev all_deleted : McpServer → Deletions
all_deleted s = both_deleted
