-- ===== src/Database/Seeding/Again.antt =====
-- A second start of the application.
use langgraph_temporal_agent.Database.Seeding.Grows.{HasProduct, HasOrder}
use langgraph_temporal_agent.Database.Seeding.Inserts.{then_of_ok}
use langgraph_temporal_agent.Prelude.{◌≡◌, [], ◌∷◌, refl, All, List, ◌∙◌, ap}
use langgraph_temporal_agent.Database.Seeding.{
  seed_products, seed_orders, initialize_database, set_sequence, executemany, insert_product,
  insert_seed,
}
use langgraph_temporal_agent.Database.Sql.{ok, err, Sql, Result, database_connection, ◌>>◌, modify}
use langgraph_temporal_agent.Database.Schema.{Product, Order, Database}
use langgraph_temporal_agent.Database.Invariant.{IsValid}
use langgraph_temporal_agent.Database.Seeding.Startup.{
  initialize_database-IsStarted, set_sequence_after,
}

-- The statement of a batch does nothing where all that it inserts is there.
executemany_again :
    {A : Type 0} (f : A → Sql (Unit {0})) (Has : A → Database → Type 0)
    → ((x : A) (db : Database) → Has x db → f x db ≡ ok (tt, db))
    → (xs : List A) (db : Database) → All (λ x. Has x db) xs
    → executemany f xs db ≡ ok (tt, db)
unfolding executemany
executemany_again f Has skips [] db h = refl
executemany_again f Has skips (x ∷ xs) db (here_, h) =
    then_of_ok (f x) (executemany f xs) db db (skips x db here_)
    ∙ executemany_again f Has skips xs db h

insert_product_again :
    (p : Product) (db : Database) → HasProduct p db → insert_product p db ≡ ok (tt, db)
unfolding insert_product
insert_product_again p db h = rw h refl

insert_seed_again : (o : Order) (db : Database) → HasOrder o db → insert_seed o db ≡ ok (tt, db)
unfolding insert_seed
insert_seed_again o db h = rw h refl

commit : (r : Result (Unit {0} × Database)) (db : Database) → Result (Unit {0}) × Database
commit r db = elim r [ ok (a, d) ↦ (ok a, d) | err e ↦ (err e, db) ]

start_again :
    (db : Database)
    → All (λ p. HasProduct p db) seed_products
    → All (λ o. HasOrder o db) seed_orders
    → initialize_database db ≡ (ok tt, set_sequence db)
unfolding initialize_database database_connection commit
start_again db products orders =
    ap (λ r. commit r db)
      (then_of_ok (executemany insert_product seed_products)
          (executemany insert_seed seed_orders >> modify set_sequence) db db
          (executemany_again insert_product HasProduct insert_product_again seed_products db
            products)
        ∙ then_of_ok (executemany insert_seed seed_orders) (modify set_sequence) db db
            (executemany_again insert_seed HasOrder insert_seed_again seed_orders db orders))

-- A second start finds everything in place and changes nothing, the sequence included.
pub initialize_database_again :
    (db : Database)
    → IsValid db
    → initialize_database (initialize_database db).1 ≡ (ok tt, (initialize_database db).1)
initialize_database_again db v =
    let started = initialize_database-IsStarted db v in
    start_again (initialize_database db).1 started.products started.orders
    ∙ ap (λ d. (ok tt, d)) (set_sequence_after db v)
