-- ===== src/Tests/Setup.antt =====
-- A machine before the service is started on it, and a listing of three trades in pages of two.
use crypto_auto_trader.Base.{ℕ, ◌≤◌, ◌*◌, ◌≡◌, ◌↔◌, true, none, [], ◌∷◌, arith, select}
use mathlib.Core.List.{Perm}
use crypto_auto_trader.Text.{text}
use crypto_auto_trader.Models.{Trade}
use crypto_auto_trader.Errors.{ok}
use crypto_auto_trader.World.{World}
use crypto_auto_trader.World.Places.{post_count}
use crypto_auto_trader.Store.Order.{IsOrdered}
use crypto_auto_trader.Setup.{Machine, check_setup}
use crypto_auto_trader.Setup.Verdict.{IsReady, check_setup_iff}
use crypto_auto_trader.Queries.{is_listed, newer, list_trades_for_user}
use crypto_auto_trader.Queries.Pages.{fetch, pages_cover}
use crypto_auto_trader.Tests.Data.{host, world, world_of, alice, pending}

abbrev machine : Machine
machine = record {
  configuration_loads = true;
  connects = λ n. true;
  table_names = text "alembic_version" ∷ text "trades" ∷ text "users" ∷ [];
}

check_setup_iff_example :
    (((check_setup host machine world).0 ≡ ok 0) ↔ IsReady host machine world)
    × ((check_setup host machine world).1.db ≡ world.db)
    × (post_count (check_setup host machine world).1.requests ≡ 0)
check_setup_iff_example = check_setup_iff host machine world

abbrev numbered : ℕ → Trade
numbered n = record pending { id = n; signal_id = n ∷ []; created_at = n }

abbrev three_trades : World
three_trades = world_of (alice ∷ []) (numbered 1 ∷ numbered 3 ∷ numbered 2 ∷ [])

enough : (list_trades_for_user alice 2 0 none three_trades.db).1 ≤ 2 * 2
unfolding list_trades_for_user
enough = omega arith

pages_cover_example :
    Perm (fetch alice 2 none three_trades.db 2) (select (is_listed 1 none) three_trades.db.trades)
    × IsOrdered newer (fetch alice 2 none three_trades.db 2)
pages_cover_example = pages_cover alice 2 2 none three_trades.db enough
