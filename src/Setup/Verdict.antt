-- ===== src/Setup/Verdict.antt =====
-- When the check of a machine passes, and what it leaves alone.
use crypto_auto_trader.Base.{
  ℕ, ◌≡◌, ◌↔◌, refl, Bool, true, false, not, List, [], ◌∷◌, ◌==◌, arith, if◌then◌else◌, is_some,
  is_none, Bool-cases, inl, inr,
}
use crypto_auto_trader.Text.{Text, text, text_in}
use crypto_auto_trader.Errors.{Exc, Result, ok, err}
use crypto_auto_trader.Host.{Host}
use crypto_auto_trader.World.{World}
use crypto_auto_trader.World.Runs.{bind-gets, bind-attempt, run-pure, run-raise}
use crypto_auto_trader.World.Places.{Places, post_count, places_rules}
use crypto_auto_trader.World.Queue.{LeavesDb, db_rules}
use crypto_auto_trader.BinanceClient.Calls.{
  Places-ping, Places-get_server_time, LeavesDb-ping, LeavesDb-get_server_time,
}
use crypto_auto_trader.BinanceClient.{Client}
use crypto_auto_trader.Setup.{
  Machine, missing, owner_of, answered, finish, check_owner, check_tables, check_setup,
}

module _ (host : Host) (machine : Machine) where
  result-finish :
      (failures : ℕ) (w : World)
      → (finish host machine failures w).0 ≡ ok (if failures == 0 then 0 else 1)
  result-finish failures w = rw (bind-attempt, run-pure) refl

  abbrev owner_result : World → Result ℕ
  owner_result w =
      if machine.connects 2
      then ok (if is_none (owner_of host w) then 1 else 0)
      else err Exc.sqlalchemy_error

  result-check_owner : (w : World) → (check_owner host machine w).0 ≡ owner_result w
  result-check_owner w = elim (Bool-cases (machine.connects 2)) [
    | inl e ↦ rw (e, bind-gets, result-finish) (ground arith)
    | inr e ↦ rw (e, run-raise) refl
  ]

  abbrev tables_result : List Text → World → Result ℕ
  tables_result [] w = owner_result w
  tables_result (name ∷ names) w = ok 1

  result-check_tables :
      (names : List Text) (w : World)
      → (check_tables host machine names w).0 ≡ tables_result names w
  result-check_tables [] w = result-check_owner w
  result-check_tables (name ∷ names) w = result-finish 1 w

  abbrev result : World → Result ℕ
  result w =
      if not machine.configuration_loads
      then ok 1
      else if not (machine.connects 0)
      then ok 1
      else if machine.connects 1
      then tables_result (missing machine.table_names) w
      else err Exc.sqlalchemy_error

  result-check_setup : (w : World) → (check_setup host machine w).0 ≡ result w
  unfolding check_setup
  result-check_setup w = elim (Bool-cases machine.configuration_loads) [
    | inr e ↦ rw (e, run-pure) refl
    | inl e ↦ elim (Bool-cases (machine.connects 0)) [
      | inr d ↦ rw (e, d, run-pure) refl
      | inl d ↦ elim (Bool-cases (machine.connects 1)) [
        | inr c ↦ rw (e, d, c, run-raise) refl
        | inl c ↦ rw (e, d, c, result-check_tables) refl
      ]
    ]
  ]

  Places-answered : (client : Client) (up : Bool) → Places 0 (answered host machine client up)
  Places-answered client true = search (places_rules, Places-get_server_time)
  Places-answered client false = search places_rules

  Places-finish : (failures : ℕ) → Places 0 (finish host machine failures)
  Places-finish failures = search (places_rules, Places-ping, Places-answered)

  Places-check_tables : (names : List Text) → Places 0 (check_tables host machine names)
  Places-check_tables [] = search (places_rules, Places-finish)
  Places-check_tables (name ∷ names) = Places-finish 1

  Places-check_setup : Places 0 (check_setup host machine)
  unfolding check_setup
  Places-check_setup = search (places_rules, Places-check_tables)

  LeavesDb-answered : (client : Client) (up : Bool) → LeavesDb (answered host machine client up)
  LeavesDb-answered client true = search (db_rules, LeavesDb-get_server_time)
  LeavesDb-answered client false = search db_rules

  LeavesDb-finish : (failures : ℕ) → LeavesDb (finish host machine failures)
  LeavesDb-finish failures = search (db_rules, LeavesDb-ping, LeavesDb-answered)

  LeavesDb-check_tables : (names : List Text) → LeavesDb (check_tables host machine names)
  LeavesDb-check_tables [] = search (db_rules, LeavesDb-finish)
  LeavesDb-check_tables (name ∷ names) = LeavesDb-finish 1

  LeavesDb-check_setup : LeavesDb (check_setup host machine)
  unfolding check_setup
  LeavesDb-check_setup = search (db_rules, LeavesDb-check_tables)

-- What the service needs of its machine.
pub record IsReady (host : Host) (machine : Machine) (w : World) : Type 0 where
  pub configuration_loads : machine.configuration_loads ≡ true
  pub connects :
      (machine.connects 0 ≡ true) × (machine.connects 1 ≡ true) × (machine.connects 2 ≡ true)
  pub has_users : text_in (text "users") machine.table_names ≡ true
  pub has_trades : text_in (text "trades") machine.table_names ≡ true
  pub has_owner : is_some (owner_of host w) ≡ true

missing-none :
    (tables : List Text)
    → (missing tables ≡ [])
      ↔ ((text_in (text "users") tables ≡ true) × (text_in (text "trades") tables ≡ true))
unfolding missing
missing-none tables = ground arith

module _ (host : Host) (machine : Machine) (w : World) where
  owner_result-passes :
      (owner_result host machine w ≡ ok 0)
      ↔ ((machine.connects 2 ≡ true) × (is_some (owner_of host w) ≡ true))
  owner_result-passes = ground arith

  tables_result-passes :
      (names : List Text)
      → (tables_result host machine names w ≡ ok 0)
        ↔ ((names ≡ []) × (owner_result host machine w ≡ ok 0))
  tables_result-passes names = ground arith

  result-passes : (result host machine w ≡ ok 0) ↔ (
      (machine.configuration_loads ≡ true)
      × (machine.connects 0 ≡ true)
      × (machine.connects 1 ≡ true)
      × (tables_result host machine (missing machine.table_names) w ≡ ok 0))
  result-passes = ground arith

  result_iff : (result host machine w ≡ ok 0) ↔ IsReady host machine w
  result_iff = (
    λ h.
        let (loads, up, again, tables) = result-passes.0 h in
        let (none_missing, owner) = (tables_result-passes _).0 tables in
        let (third, named) = owner_result-passes.0 owner in
        let (users, trades) = (missing-none machine.table_names).0 none_missing in
        record {
          configuration_loads = loads;
          connects = (up, again, third);
          has_users = users;
          has_trades = trades;
          has_owner = named;
        },
    λ h.
        let (up, again, third) = h.connects in
        let complete = (missing-none machine.table_names).1 (h.has_users, h.has_trades) in
        let owner = owner_result-passes.1 (third, h.has_owner) in
        result-passes.1
          (h.configuration_loads, up, again, (tables_result-passes _).1 (complete, owner)),
  )

-- The check passes, with exit code 0, exactly on a machine where the settings load, the database
-- takes connections, both tables are there, and the account that webhooks trade for is registered.
-- Whether or not it passes, it writes nothing to the database and places no order.
pub check_setup_iff :
    (host : Host) (machine : Machine) (w : World)
    → (((check_setup host machine w).0 ≡ ok 0) ↔ IsReady host machine w)
      × ((check_setup host machine w).1.db ≡ w.db)
      × (post_count (check_setup host machine w).1.requests ≡ post_count w.requests)
check_setup_iff host machine w =
    let places = Places-check_setup host machine in
    (
      rw (result-check_setup host machine w) (result_iff host machine w),
      (LeavesDb-check_setup host machine).same w,
      omega (arith, places.least w, places.most w),
    )
