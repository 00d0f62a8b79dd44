-- ===== src/Database/Listing/Laws.antt =====
-- What `list_order_rows` returns.
use langgraph_temporal_agent.Prelude.{
  zero, suc, arith, [], true, ◌∷◌, ℕ, Option, List, All, length, take, ◌≤◌, ◌≡◌, All-take,
  All-filter, inl, inr, refl, filter, ap, Bool, ◌∙◌, leb, count, Bool-cases, All-map_of,
}
use langgraph_temporal_agent.Database.Listing.{
  insert_by_id, order_by_id, list_order_rows, OrderRow, where_clauses, join_products,
}
use langgraph_temporal_agent.Database.Schema.{OrderStatus, Database}
use langgraph_temporal_agent.Text.{Text}

All-insert_by_id :
    (P : OrderRow → Type 0) (r : OrderRow) (rows : List OrderRow)
    → P r
    → All P rows
    → All P (insert_by_id r rows)
unfolding insert_by_id
All-insert_by_id P r [] p h = (p, tt)
All-insert_by_id P r (s ∷ rows) p h = ground (arith, All-insert_by_id P r rows p h.1)

pub All-order_by_id :
    (P : OrderRow → Type 0) (rows : List OrderRow) → All P rows → All P (order_by_id rows)
unfolding order_by_id
All-order_by_id P [] h = tt
All-order_by_id P (r ∷ rows) h =
    All-insert_by_id P r (order_by_id rows) h.0 (All-order_by_id P rows h.1)

-- The rows that a query matches, before they are ordered and cut.
abbrev pub matching : Option OrderStatus → Option Text → Database → List OrderRow
matching status customer_id db =
    filter (where_clauses status customer_id) (join_products db.products db.orders)

list_order_rows_where :
    (status : Option OrderStatus) (limit : ℕ) (customer_id : Option Text) (db : Database)
    → All
        (λ r. where_clauses status customer_id r ≡ true)
        (list_order_rows status limit customer_id db)
unfolding list_order_rows
list_order_rows_where status limit customer_id db =
    let rows = matching status customer_id db in
    All-take (λ r. where_clauses status customer_id r ≡ true) limit (order_by_id rows)
      (All-order_by_id (λ r. where_clauses status customer_id r ≡ true) rows
        (All-filter (where_clauses status customer_id) (join_products db.products db.orders)))

pub length-take-le {ℓ} : {A : Type ℓ} (n : ℕ) (xs : List A) → length (take n xs) ≤ n
length-take-le zero xs = omega arith
length-take-le (suc n) [] = omega arith
length-take-le (suc n) (x ∷ xs) = omega (arith, length-take-le n xs)

take_all {ℓ} : {A : Type ℓ} (n : ℕ) (xs : List A) → length xs ≤ n → take n xs ≡ xs
take_all zero [] h = refl
take_all zero (x ∷ xs) h = absurd (omega arith)
take_all (suc n) [] h = refl
take_all (suc n) (x ∷ xs) h = ap (λ ys. x ∷ ys) (take_all n xs (omega arith))

count-insert_by_id :
    (p : OrderRow → Bool) (r : OrderRow) (rows : List OrderRow)
    → count p (insert_by_id r rows) ≡ count p (r ∷ rows)
unfolding insert_by_id
count-insert_by_id p r [] = refl
count-insert_by_id p r (s ∷ rows) = ground (arith, count-insert_by_id p r rows)

count-order_by_id :
    (p : OrderRow → Bool) (rows : List OrderRow) → count p (order_by_id rows) ≡ count p rows
unfolding order_by_id
count-order_by_id p [] = refl
count-order_by_id p (r ∷ rows) =
    ground (arith, count-insert_by_id p r (order_by_id rows), count-order_by_id p rows)

length-insert_by_id :
    (r : OrderRow) (rows : List OrderRow) → length (insert_by_id r rows) ≡ suc (length rows)
unfolding insert_by_id
length-insert_by_id r [] = refl
length-insert_by_id r (s ∷ rows) = ground (arith, length-insert_by_id r rows)

length-order_by_id : (rows : List OrderRow) → length (order_by_id rows) ≡ length rows
unfolding order_by_id
length-order_by_id [] = refl
length-order_by_id (r ∷ rows) =
    length-insert_by_id r (order_by_id rows) ∙ ap suc (length-order_by_id rows)

-- Ids do not fall along the list.
abbrev pub IsAscending : List OrderRow → Type 0
IsAscending [] = Unit
IsAscending (r ∷ rows) = All (λ s. r.id ≤ s.id) rows × IsAscending rows

IsAscending-insert_by_id :
    (r : OrderRow) (rows : List OrderRow) → IsAscending rows → IsAscending (insert_by_id r rows)
unfolding insert_by_id
IsAscending-insert_by_id r [] h = (tt, tt)
IsAscending-insert_by_id r (s ∷ rows) (low, h) = elim (Bool-cases (leb r.id s.id)) [
  | inl below ↦
      rw below ((ground arith, All-map_of rows (λ x k. first-le r s x below k) low), (low, h))
  | inr above ↦ rw above (
    All-insert_by_id (λ x. s.id ≤ x.id) r rows (ground arith) low,
    IsAscending-insert_by_id r rows h,
  )
]
  where
    first-le : (r s x : OrderRow) → leb r.id s.id ≡ true → s.id ≤ x.id → r.id ≤ x.id
    first-le r s x below k = ground arith

pub IsAscending-order_by_id : (rows : List OrderRow) → IsAscending (order_by_id rows)
unfolding order_by_id
IsAscending-order_by_id [] = tt
IsAscending-order_by_id (r ∷ rows) =
    IsAscending-insert_by_id r (order_by_id rows) (IsAscending-order_by_id rows)

IsAscending-take : (n : ℕ) (rows : List OrderRow) → IsAscending rows → IsAscending (take n rows)
IsAscending-take zero rows h = tt
IsAscending-take (suc n) [] h = tt
IsAscending-take (suc n) (r ∷ rows) (low, h) =
    (All-take (λ s. r.id ≤ s.id) n rows low, IsAscending-take n rows h)

-- A listing has rows that match the given status and customer only, in order of their ids, and no
-- more of them than the limit.
pub list_order_rows_lem :
    (status : Option OrderStatus) (limit : ℕ) (customer_id : Option Text) (db : Database)
    → All
        (λ r. where_clauses status customer_id r ≡ true)
        (list_order_rows status limit customer_id db)
      × IsAscending (list_order_rows status limit customer_id db)
      × (length (list_order_rows status limit customer_id db) ≤ limit)
unfolding list_order_rows
list_order_rows_lem status limit customer_id db =
    let rows = matching status customer_id db in
    (
      list_order_rows_where status limit customer_id db,
      IsAscending-take limit (order_by_id rows) (IsAscending-order_by_id rows),
      length-take-le limit (order_by_id rows),
    )

-- Where no more rows match than the limit, the listing has all of them: a test holds of as many rows
-- of the listing as of the matching rows of the join.
pub list_order_rows_all :
    (status : Option OrderStatus) (limit : ℕ) (customer_id : Option Text) (db : Database)
    (p : OrderRow → Bool)
    → length (matching status customer_id db) ≤ limit
    → count p (list_order_rows status limit customer_id db)
      ≡ count p (matching status customer_id db)
unfolding list_order_rows
list_order_rows_all status limit customer_id db p few =
    let rows = matching status customer_id db in
    ap (count p) (take_all limit (order_by_id rows) (omega (arith, length-order_by_id rows)))
    ∙ count-order_by_id p rows
