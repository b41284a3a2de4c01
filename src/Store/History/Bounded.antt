-- ===== src/Store/History/Bounded.antt =====
-- InsertHistory, ListHistory and ClearHistory of internal/store/sqlite.go on a table that is in the
-- order of its ids.
use mcpshim.Prelude.{
  ℕ, zero, suc, ◌+◌, ◌≤◌, ◌<◌, ◌≡◌, refl, sym, ap, ◌∙◌, subst, Bool, true, false, not, ◌&&◌, List,
  [], ◌∷◌, ◌++◌, if◌then◌else◌, length, keep, All, All-append, arith, inl, inr, Bool-cases, Text,
  is_empty, ℤ, pos, negsuc, is_positive, pos_part, ok,
}
use mcpshim.Store.History.{
  Row, Table, Outcome, insert_row, prune_rows, insert_history, selects, list_limit, list_history,
  clear_history,
}
use mcpshim.Store.History.Order.{
  IsAscending, last_rows, order_desc-reverse, prune_rows-last_rows, keep-IsAscending, All-keep,
  All-last_rows, last_rows-IsAscending,
}

-- The limit of a listing is between 1 and 500, whatever is asked.
pub list_limit_bounds : (limit : ℤ) → (1 ≤ list_limit limit) × (list_limit limit ≤ 500)
unfolding list_limit
list_limit_bounds (pos zero) = ground arith
list_limit_bounds (pos (suc n)) = ground arith
list_limit_bounds (negsuc n) = ground arith

module _ {P : Type 0} where
  -- The rows are in the order of their ids, and the next id is above them all.
  pub record IsOrdered (t : Table P) : Type 0 where
    pub ascending : IsAscending t.rows
    pub fresh : All (λ r. r.id < t.next_id) t.rows

  abbrev pub new_row : Text → Text → P → Table P → Row P
  new_row server tool payload t = record {
    id = t.next_id;
    server = server;
    tool = tool;
    payload = payload;
  }

  IsAscending-concat :
      (rows : List (Row P)) (new : Row P)
      → IsAscending rows
      → All (λ r. r.id < new.id) rows
      → IsAscending (rows ++ new ∷ [])
  IsAscending-concat [] new h f = (tt, tt)
  IsAscending-concat (r ∷ rows) new h f = (
    All-append (λ s. r.id < s.id) rows (new ∷ []) h.0 (f.0, tt),
    IsAscending-concat rows new h.1 f.1,
  )

  fresh_concat :
      (rows : List (Row P)) (new : Row P)
      → All (λ r. r.id < new.id) rows
      → All (λ r. r.id < suc new.id) (rows ++ new ∷ [])
  fresh_concat [] new f = (omega arith, tt)
  fresh_concat (r ∷ rows) new f = (omega arith, fresh_concat rows new f.1)

  insert_row-IsOrdered :
      (server tool : Text) (payload : P) (t : Table P)
      → IsOrdered t
      → IsOrdered (insert_row server tool payload t)
  unfolding insert_row
  insert_row-IsOrdered server tool payload t h = record {
    ascending = IsAscending-concat t.rows (new_row server tool payload t) h.ascending h.fresh;
    fresh = fresh_concat t.rows (new_row server tool payload t) h.fresh;
  }

  insert_history-inv :
      (server tool : Text) (payload : P) (size : ℤ) (db : Outcome) (t t' : Table P)
      → insert_history server tool payload size db t ≡ ok t'
      → t' ≡ (
          if is_positive size
          then record (insert_row server tool payload t) {
            rows = prune_rows (pos_part size) (insert_row server tool payload t).rows;
          }
          else insert_row server tool payload t)
  unfolding insert_history
  insert_history-inv server tool payload size db t t' h = ground arith

  -- What a table holds after an insertion: the last rows, as many as the size allows, or all where
  -- the size is not positive.
  abbrev pub retained : ℤ → List (Row P) → List (Row P)
  retained size rows = if is_positive size then last_rows (pos_part size) rows else rows

  -- An insertion that succeeds into a table in order adds one newest row and keeps the newest rows,
  -- as many as a positive history size, or all; the table is in order after it.
  pub insert_history-retained :
      (server tool : Text) (payload : P) (size : ℤ) (db : Outcome) (t t' : Table P)
      → IsOrdered t
      → insert_history server tool payload size db t ≡ ok t'
      → (t'.rows ≡ retained size (t.rows ++ new_row server tool payload t ∷ [])) × IsOrdered t'
  insert_history-retained server tool payload size db t t' h e =
      let after = insert_history-inv server tool payload size db t t' e in
      let inserted = insert_row server tool payload t in
      let ordered = insert_row-IsOrdered server tool payload t h in
      elim (Bool-cases (is_positive size)) [
        | inr unbounded ↦
            subst
              (λ (u : Table P).
                (u.rows ≡ retained size (t.rows ++ new_row server tool payload t ∷ []))
                × IsOrdered u)
              (sym (rw unbounded at after)) (rw unbounded (unfold insert_row in refl), ordered)
        | inl bounded ↦
            let pruned = prune_rows-last_rows (pos_part size) inserted.rows ordered.ascending in
            subst
              (λ (u : Table P).
                (u.rows ≡ retained size (t.rows ++ new_row server tool payload t ∷ []))
                × IsOrdered u)
              (sym (rw bounded at after))
              (
                rw bounded (pruned ∙ (unfold insert_row in refl)),
                record {
                  ascending =
                      rw pruned
                        (last_rows-IsAscending (pos_part size) inserted.rows ordered.ascending);
                  fresh = rw pruned (
                      All-last_rows (λ r. r.id < inserted.next_id) (pos_part size) inserted.rows
                        ordered.fresh);
                },
              )
      ]

  -- Where the query succeeds, what is listed of a table in order is the newest rows that the
  -- filters select, oldest first, up to the limit.
  pub list_history-last_rows :
      (server_filter tool_filter : Text) (limit : ℤ) (t : Table P)
      → IsOrdered t
      → list_history server_filter tool_filter limit true t
        ≡ ok (last_rows (list_limit limit) (keep (selects server_filter tool_filter) t.rows))
  unfolding list_history
  list_history-last_rows server_filter tool_filter limit t h =
      rw
        (order_desc-reverse (keep (selects server_filter tool_filter) t.rows)
          (keep-IsAscending (selects server_filter tool_filter) t.rows h.ascending))
        refl

  keep-complement :
      (p : Row P → Bool) (rows : List (Row P))
      → length (keep p rows) + length (keep (λ r. not (p r)) rows) ≡ length rows
  keep-complement p [] = omega arith
  keep-complement p (r ∷ rows) = ground (arith, keep-complement p rows)

  keep-selects :
      (p : Row P → Bool) (rows : List (Row P)) → All (λ r. p r ≡ false) (keep (λ r. not (p r)) rows)
  keep-selects p [] = tt
  keep-selects p (r ∷ rows) = ground (arith, keep-selects p rows)

  keep-again : (p : Row P → Bool) (rows : List (Row P)) → keep p (keep p rows) ≡ keep p rows
  keep-again p [] = refl
  keep-again p (r ∷ rows) = elim (Bool-cases (p r)) [
    | inl kept ↦ rw (kept, kept) (ap (λ rest. r ∷ rest) (keep-again p rows))
    | inr left ↦ rw left (keep-again p rows)
  ]

  clear_history-inv :
      (server_filter tool_filter : Text) (everything : Bool) (n : ℕ) (t t' : Table P)
      → clear_history server_filter tool_filter everything true t ≡ ok (n, t')
      → (n ≡ length (keep (selects server_filter tool_filter) t.rows))
        × (t' ≡ record t { rows = keep (λ r. not (selects server_filter tool_filter r)) t.rows })
        × (everything ≡ (is_empty server_filter && is_empty tool_filter))
  unfolding clear_history
  clear_history-inv server_filter tool_filter everything n t t' h = ground arith

  -- Clearing a table in order, where it succeeds, leaves no row that the filters select and
  -- every other row where it was, reports how many fewer rows there are, and leaves the table in
  -- order. It succeeds only for all without a
  -- filter, or with a filter and not for all.
  pub clear_history-removes :
      (server_filter tool_filter : Text) (everything : Bool) (n : ℕ) (t t' : Table P)
      → IsOrdered t
      → clear_history server_filter tool_filter everything true t ≡ ok (n, t')
      → (n + length t'.rows ≡ length t.rows)
        × All (λ r. selects server_filter tool_filter r ≡ false) t'.rows
        × (keep (λ r. not (selects server_filter tool_filter r)) t'.rows
            ≡ keep (λ r. not (selects server_filter tool_filter r)) t.rows)
        × IsOrdered t'
        × (everything ≡ (is_empty server_filter && is_empty tool_filter))
  clear_history-removes server_filter tool_filter everything n t t' h e =
      let (count, after, filters) =
        clear_history-inv server_filter tool_filter everything n t t' e in
      let chosen = selects server_filter tool_filter in
      let rest = λ (r : Row P). not (chosen r) in
      rw (after, count)
        (
          keep-complement chosen t.rows,
          keep-selects chosen t.rows,
          keep-again rest t.rows,
          record {
            ascending = keep-IsAscending rest t.rows h.ascending;
            fresh = All-keep (λ r. r.id < t.next_id) rest t.rows h.fresh;
          },
          filters,
        )
