-- ===== src/Store/History/Order.antt =====
-- The rows of a table that is in the order of its ids: what ORDER BY, LIMIT and the pruning select.
use mathlib.Core.List.{reverse, reverse-append, reverse-reverse}
use mcpshim.Prelude.{
  ℕ, zero, suc, ◌≤◌, ◌<◌, ◌≡◌, refl, sym, ap, ◌∙◌, subst, Bool, true, false, ◌||◌, List, [], ◌∷◌,
  ◌++◌, ◌==◌, length, take, keep, All, All-append, arith, length-append, length-take,
}
use mcpshim.Store.History.{Row, insert_desc, order_desc, has_id, prune_rows}

module _ {P : Type 0} where
  -- The ids grow from row to row.
  abbrev pub IsAscending : List (Row P) → Type 0
  IsAscending [] = Unit
  IsAscending (r ∷ rows) = All (λ s. r.id < s.id) rows × IsAscending rows

  -- The last `n` rows, in their order.
  abbrev pub last_rows : ℕ → List (Row P) → List (Row P)
  last_rows n rows = reverse (take n (reverse rows))

  insert_desc-last :
      (r : Row P) (rows : List (Row P))
      → All (λ s. r.id < s.id) rows
      → insert_desc r rows ≡ rows ++ r ∷ []
  unfolding insert_desc
  insert_desc-last r [] h = refl
  insert_desc-last r (s ∷ rows) h = ground (arith, insert_desc-last r rows h.1)

  All-reverse : (Q : Row P → Type 0) (rows : List (Row P)) → All Q rows → All Q (reverse rows)
  All-reverse Q [] h = tt
  All-reverse Q (r ∷ rows) h =
      subst (All Q) (sym (reverse-append (r ∷ []) rows))
        (All-append Q (reverse rows) (r ∷ []) (All-reverse Q rows h.1) (h.0, tt))

  -- Newest first is the table read backwards.
  pub order_desc-reverse : (rows : List (Row P)) → IsAscending rows → order_desc rows ≡ reverse rows
  unfolding order_desc
  order_desc-reverse [] h = refl
  order_desc-reverse (r ∷ rows) h = rw (order_desc-reverse rows h.1) (
      insert_desc-last r (reverse rows) (All-reverse (λ s. r.id < s.id) rows h.0)
      ∙ sym (reverse-append (r ∷ []) rows))

  pub keep-append :
      (p : Row P → Bool) (xs ys : List (Row P)) → keep p (xs ++ ys) ≡ keep p xs ++ keep p ys
  keep-append p [] ys = refl
  keep-append p (x ∷ xs) ys = ground (arith, keep-append p xs ys)

  pub keep_every :
      (p : Row P → Bool) (xs : List (Row P)) → All (λ r. p r ≡ true) xs → keep p xs ≡ xs
  keep_every p [] h = refl
  keep_every p (x ∷ xs) h = ground (arith, keep_every p xs h.1)

  pub keep_none :
      (p : Row P → Bool) (xs : List (Row P)) → All (λ r. p r ≡ false) xs → keep p xs ≡ []
  keep_none p [] h = refl
  keep_none p (x ∷ xs) h = ground (arith, keep_none p xs h.1)

  pub All-keep :
      (Q : Row P → Type 0) (p : Row P → Bool) (xs : List (Row P)) → All Q xs → All Q (keep p xs)
  All-keep Q p [] h = tt
  All-keep Q p (x ∷ xs) h = ground (arith, All-keep Q p xs h.1)

  pub keep-IsAscending :
      (p : Row P → Bool) (xs : List (Row P)) → IsAscending xs → IsAscending (keep p xs)
  keep-IsAscending p [] h = tt
  keep-IsAscending p (x ∷ xs) h =
      ground (arith, All-keep (λ s. x.id < s.id) p xs h.0, keep-IsAscending p xs h.1)

  take-append : (n : ℕ) (xs : List (Row P)) → (rest : List (Row P)) × (xs ≡ take n xs ++ rest)
  take-append zero xs = (xs, refl)
  take-append (suc n) [] = ([], refl)
  take-append (suc n) (x ∷ xs) = let (rest, e) = take-append n xs in (rest, ap (◌∷◌ x) e)

  -- A table is what is not among its last rows, and its last rows.
  pub split_last :
      (n : ℕ) (rows : List (Row P)) → (older : List (Row P)) × (rows ≡ older ++ last_rows n rows)
  split_last n rows =
      let (rest, e) = take-append n (reverse rows) in
      (
        reverse rest,
        sym (reverse-reverse rows) ∙ ap reverse e ∙ reverse-append (take n (reverse rows)) rest,
      )

  ascending_append :
      (xs ys : List (Row P)) → IsAscending (xs ++ ys) → All (λ x. All (λ y. x.id < y.id) ys) xs
  ascending_append [] ys h = tt
  ascending_append (x ∷ xs) ys h = (tail xs ys h.0, ascending_append xs ys h.1)
    where
      tail : (xs ys : List (Row P)) → All (λ s. x.id < s.id) (xs ++ ys) → All (λ y. x.id < y.id) ys
      tail [] ys a = a
      tail (z ∷ xs) ys a = tail xs ys a.1

  not_has_id : (n : ℕ) (ys : List (Row P)) → All (λ y. n < y.id) ys → has_id ys n ≡ false
  not_has_id n [] h = refl
  not_has_id n (y ∷ ys) h = ground (arith, not_has_id n ys h.1)

  All-not_has_id :
      (xs ys : List (Row P))
      → All (λ x. All (λ y. x.id < y.id) ys) xs
      → All (λ x. has_id ys x.id ≡ false) xs
  All-not_has_id [] ys h = tt
  All-not_has_id (x ∷ xs) ys h = (not_has_id x.id ys h.0, All-not_has_id xs ys h.1)

  has_id-more :
      (more ys : List (Row P)) (y : Row P)
      → All (λ x. has_id ys x.id ≡ true) more
      → All (λ x. has_id (y ∷ ys) x.id ≡ true) more
  has_id-more [] ys y h = tt
  has_id-more (x ∷ more) ys y h = (ground arith, has_id-more more ys y h.1)

  All-has_id : (ys : List (Row P)) → All (λ y. has_id ys y.id ≡ true) ys
  All-has_id [] = tt
  All-has_id (y ∷ ys) = (ground arith, has_id-more ys ys y (All-has_id ys))

  has_id-reverse : (n : ℕ) (ys : List (Row P)) → has_id (reverse ys) n ≡ has_id ys n
  has_id-reverse n [] = refl
  has_id-reverse n (y ∷ ys) =
      rw (reverse-append (y ∷ []) ys) (joined (reverse ys) ∙ ground (arith, has_id-reverse n ys))
    where
      joined : (zs : List (Row P)) → has_id (zs ++ y ∷ []) n ≡ (has_id zs n || (y.id == n))
      joined [] = ground arith
      joined (z ∷ zs) = ground (arith, joined zs)

  of_reverse :
      (ys : List (Row P)) (b : Bool) (xs : List (Row P))
      → All (λ x. has_id (reverse ys) x.id ≡ b) xs
      → All (λ x. has_id ys x.id ≡ b) xs
  of_reverse ys b [] h = tt
  of_reverse ys b (x ∷ xs) h = (sym (has_id-reverse x.id ys) ∙ h.0, of_reverse ys b xs h.1)

  -- Pruning keeps exactly the last rows.
  pub prune_rows-last_rows :
      (n : ℕ) (rows : List (Row P)) → IsAscending rows → prune_rows n rows ≡ last_rows n rows
  unfolding prune_rows
  prune_rows-last_rows n rows h =
      let newest = take n (reverse rows) in
      let has = λ (r : Row P). has_id newest r.id in
      let (older, e) = split_last n rows in
      let before = ascending_append older (reverse newest) (subst IsAscending e h) in
      let gone = of_reverse newest false older (All-not_has_id older (reverse newest) before) in
      let kept = All-reverse (λ r. has r ≡ true) newest (All-has_id newest) in
      rw (order_desc-reverse rows h) (
        ap (keep has) e
        ∙ keep-append has older (reverse newest)
        ∙ rw (keep_none has older gone, keep_every has (reverse newest) kept) refl)

  pub length-reverse : (rows : List (Row P)) → length (reverse rows) ≡ length rows
  length-reverse [] = refl
  length-reverse (r ∷ rows) =
      ap length (reverse-append (r ∷ []) rows)
      ∙ omega (arith, length-append (reverse rows) (r ∷ []), length-reverse rows)

  pub length-last_rows : (n : ℕ) (rows : List (Row P)) → length (last_rows n rows) ≤ n
  length-last_rows n rows =
      omega (arith, length-reverse (take n (reverse rows)), length-take n (reverse rows))

  pub All-last_rows :
      (Q : Row P → Type 0) (n : ℕ) (rows : List (Row P)) → All Q rows → All Q (last_rows n rows)
  All-last_rows Q n rows h =
      let (older, e) = split_last n rows in second older (last_rows n rows) (subst (All Q) e h)
    where
      second : (xs ys : List (Row P)) → All Q (xs ++ ys) → All Q ys
      second [] ys a = a
      second (x ∷ xs) ys a = second xs ys a.1

  pub last_rows-IsAscending :
      (n : ℕ) (rows : List (Row P)) → IsAscending rows → IsAscending (last_rows n rows)
  last_rows-IsAscending n rows h =
      let (older, e) = split_last n rows in second older (last_rows n rows) (subst IsAscending e h)
    where
      second : (xs ys : List (Row P)) → IsAscending (xs ++ ys) → IsAscending ys
      second [] ys a = a
      second (x ∷ xs) ys a = second xs ys a.1
