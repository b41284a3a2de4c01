-- ===== src/Store/History.antt =====
-- The table call_history: InsertHistory, ListHistory and ClearHistory. `P` is the type of what a
-- row holds beside its key: the time, the arguments, the outcome and the duration.
pub mod Order
pub mod Bounded
use mcpshim.Prelude.{
  ℕ, zero, suc, ◌+◌, Bool, true, false, not, ◌&&◌, ◌||◌, Option, none, some, List, [], ◌∷◌, ◌++◌,
  map, ltb, ◌==◌, if◌then◌else◌, length, is_empty, take, any, keep, Text, text_eq, ℤ, pos,
  is_positive, pos_part, Result, ok, err, guard, ◌>>=◌, ◌>>◌,
}
use mathlib.Core.List.{reverse}

pub record Row (P : Type 0) : Type 0 where
  pub id : ℕ
  pub server : Text
  pub tool : Text
  pub payload : P

-- `next_id` is the sequence of AUTOINCREMENT: an id is never used twice.
pub record Table (P : Type 0) : Type 0 where
  pub rows : List (Row P)
  pub next_id : ℕ

-- Which calls succeed: json.Marshal of the arguments, and those of the database.
pub record Outcome : Type 0 where
  pub marshal : Bool
  pub begin : Bool
  pub insert : Bool
  pub prune : Bool
  pub commit : Bool

pub data StoreError : Type 0 where
  marshal_failed begin_failed insert_failed prune_failed commit_failed query_failed : StoreError
  all_with_filters filter_required : StoreError

-- The limit of ListHistory, between 1 and 500.
unfoldable pub list_limit : ℤ → ℕ
list_limit limit =
    let asked = if is_positive limit then pos_part limit else 50 in
    if ltb 500 asked then 500 else asked

module _ {P : Type 0} where
  -- ORDER BY id DESC
  unfoldable pub insert_desc : Row P → List (Row P) → List (Row P)
  insert_desc r [] = r ∷ []
  insert_desc r (s ∷ rows) =
      let rest = insert_desc r rows in if ltb r.id s.id then s ∷ rest else r ∷ s ∷ rows

  unfoldable pub order_desc : List (Row P) → List (Row P)
  unfolding insert_desc
  order_desc [] = []
  order_desc (r ∷ rows) = insert_desc r (order_desc rows)

  -- INSERT INTO call_history
  unfoldable pub insert_row : Text → Text → P → Table P → Table P
  insert_row server tool payload t = record {
    rows =
        t.rows ++ record { id = t.next_id; server = server; tool = tool; payload = payload } ∷ [];
    next_id = suc t.next_id;
  }

  abbrev pub has_id : List (Row P) → ℕ → Bool
  has_id rows n = any rows (λ r. r.id == n)

  -- DELETE ... WHERE id NOT IN (SELECT id ... ORDER BY id DESC LIMIT ?)
  unfoldable pub prune_rows : ℕ → List (Row P) → List (Row P)
  unfolding order_desc
  prune_rows limit rows =
      let newest = take limit (order_desc rows) in keep (λ r. has_id newest r.id) rows

  -- The deferred rollback leaves the table as it was unless the commit went through.
  unfoldable pub insert_history :
      Text → Text → P → ℤ → Outcome → Table P → Result StoreError (Table P)
  insert_history server tool payload history_size db t = do
    guard db.marshal marshal_failed
    guard db.begin begin_failed
    guard db.insert insert_failed
    let inserted = insert_row server tool payload t
    guard (not (is_positive history_size) || db.prune) prune_failed
    let kept = prune_rows (pos_part history_size) inserted.rows
    guard db.commit commit_failed
    ok (if is_positive history_size then record inserted { rows = kept } else inserted)

  -- WHERE server = ? AND tool = ?, each only for a filter that is not empty
  unfoldable pub selects : Text → Text → Row P → Bool
  selects server_filter tool_filter r =
      (is_empty server_filter || text_eq r.server server_filter)
      && (is_empty tool_filter || text_eq r.tool tool_filter)

  -- The rows are read newest first, and the loop at the end swaps them end to end.
  unfoldable pub list_history : Text → Text → ℤ → Bool → Table P → Result StoreError (List (Row P))
  unfolding selects list_limit order_desc
  list_history server_filter tool_filter limit db t = do
    guard db query_failed
    ok (
        reverse
          (take (list_limit limit) (order_desc (keep (selects server_filter tool_filter) t.rows))))

  -- The number of rows removed, and the table.
  unfoldable pub clear_history :
      Text → Text → Bool → Bool → Table P → Result StoreError (ℕ × Table P)
  unfolding selects
  clear_history server_filter tool_filter everything db t = do
    guard (not (everything && (not (is_empty server_filter) || not (is_empty tool_filter))))
        all_with_filters
    guard (everything || not (is_empty server_filter) || not (is_empty tool_filter)) filter_required
    guard db query_failed
    let chosen = selects server_filter tool_filter
    ok (length (keep chosen t.rows), record t { rows = keep (λ r. not (chosen r)) t.rows })
