-- ===== src/Database/Products/Laws.antt =====
-- What the catalogue shows.
use langgraph_temporal_agent.Prelude.{
  inr, ◌∷◌, refl, false, true, arith, inl, [], Bool, Option, List, ◌≡◌, count, All, Bool-cases,
  filter, All-map_of, ◌&&◌, ◌∙◌,
}
use langgraph_temporal_agent.Text.{Text}
use langgraph_temporal_agent.Database.Schema.{ProductCategory, Product, Database}
use langgraph_temporal_agent.Database.Products.{insert_by_sku, order_by_sku, list_product_rows}
use langgraph_temporal_agent.Database.Listing.{given, category_eq}

module _ (precedes : Text → Text → Bool) (category : Option ProductCategory) where
  -- As often in one list as in the other.
  count-insert_by_sku :
      (test : Product → Bool) (p : Product) (ps : List Product)
      → count test (insert_by_sku precedes p ps) ≡ count test (p ∷ ps)
  unfolding insert_by_sku
  count-insert_by_sku test p [] = refl
  count-insert_by_sku test p (x ∷ ps) = ground (arith, count-insert_by_sku test p ps)

  count-order_by_sku :
      (test : Product → Bool) (ps : List Product)
      → count test (order_by_sku precedes ps) ≡ count test ps
  unfolding order_by_sku
  count-order_by_sku test [] = refl
  count-order_by_sku test (p ∷ ps) =
      ground
        (arith, count-insert_by_sku test p (order_by_sku precedes ps), count-order_by_sku test ps)

  count-filter :
      (keep test : Product → Bool) (ps : List Product)
      → count test (filter keep ps) ≡ count (λ p. keep p && test p) ps
  count-filter keep test [] = refl
  count-filter keep test (p ∷ ps) = ground (arith, count-filter keep test ps)

  -- Skus do not fall along the list.
  abbrev pub IsBySku : List Product → Type 0
  IsBySku [] = Unit
  IsBySku (p ∷ ps) = All (λ x. precedes p.sku x.sku ≡ true) ps × IsBySku ps

  -- A collation's order is total and transitive.
  pub record IsCollation : Type 0 where
    pub total : (a b : Text) → precedes a b ≡ false → precedes b a ≡ true
    pub transitive :
        (a b c : Text) → precedes a b ≡ true → precedes b c ≡ true → precedes a c ≡ true

  All-insert_by_sku :
      (P : Product → Type 0) (p : Product) (ps : List Product)
      → P p
      → All P ps
      → All P (insert_by_sku precedes p ps)
  unfolding insert_by_sku
  All-insert_by_sku P p [] h k = (h, tt)
  All-insert_by_sku P p (x ∷ ps) h k = ground (arith, All-insert_by_sku P p ps h k.1)

  IsBySku-insert_by_sku :
      IsCollation
      → (p : Product) (ps : List Product) → IsBySku ps
      → IsBySku (insert_by_sku precedes p ps)
  unfolding insert_by_sku
  IsBySku-insert_by_sku law p [] h = (tt, tt)
  IsBySku-insert_by_sku law p (x ∷ ps) (low, h) = elim (Bool-cases (precedes p.sku x.sku)) [
    | inl first ↦
        rw first
          ((first, All-map_of ps (λ y k. law.transitive p.sku x.sku y.sku first k) low), (low, h))
    | inr after ↦ rw after (
      All-insert_by_sku (λ y. precedes x.sku y.sku ≡ true) p ps (law.total p.sku x.sku after) low,
      IsBySku-insert_by_sku law p ps h,
    )
  ]

  IsBySku-order_by_sku : IsCollation → (ps : List Product) → IsBySku (order_by_sku precedes ps)
  unfolding order_by_sku
  IsBySku-order_by_sku law [] = tt
  IsBySku-order_by_sku law (p ∷ ps) =
      IsBySku-insert_by_sku law p (order_by_sku precedes ps) (IsBySku-order_by_sku law ps)

  -- Where the collation orders texts totally, the catalogue is in order of the skus, and it has every
  -- product of the given category as often as the table has it, and no other; without a category it
  -- has every product.
  pub list_product_rows_lem :
      IsCollation
      → (test : Product → Bool) (db : Database)
      → IsBySku (list_product_rows precedes category db)
        × (count test (list_product_rows precedes category db)
            ≡ count (λ p. given category (category_eq p.category) && test p) db.products)
  unfolding list_product_rows
  list_product_rows_lem law test db = (
    IsBySku-order_by_sku law (filter (λ p. given category (category_eq p.category)) db.products),
    count-order_by_sku test (filter (λ p. given category (category_eq p.category)) db.products)
        ∙ count-filter (λ p. given category (category_eq p.category)) test db.products,
  )
