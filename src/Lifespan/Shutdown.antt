-- ===== src/Lifespan/Shutdown.antt =====
-- The end of the process: the queue is drained, as far as time allows.
use crypto_auto_trader.Base.{
  ℕ, zero, suc, ◌-◌, ◌≡◌, refl, ap, ◌∙◌, Bool, true, false, Option, none, some, List, [], ◌∷◌,
  arith, length, drop, if◌then◌else◌,
}
use crypto_auto_trader.Host.{Host}
use crypto_auto_trader.World.{World}
use crypto_auto_trader.BinanceClient.{Client}
use crypto_auto_trader.Executor.{Executor, stop, worker_round}
use crypto_auto_trader.Executor.Drain.{queue-worker_round}
use crypto_auto_trader.Lifespan.{Process, close_binance_client, drain, stopped, shutdown}

drop-drop_one {ℓ} : {A : Type ℓ} (n : ℕ) (xs : List A) → drop n (drop 1 xs) ≡ drop (suc n) xs
drop-drop_one zero [] = refl
drop-drop_one (suc n) [] = refl
drop-drop_one n (x ∷ xs) = refl

length-drop {ℓ} : {A : Type ℓ} (n : ℕ) (xs : List A) → length (drop n xs) ≡ length xs - n
length-drop zero xs = omega arith
length-drop (suc n) [] = omega arith
length-drop (suc n) (x ∷ xs) = omega (arith, length-drop n xs)

module _ (host : Host) (client : Client) where
  queue-drain : (rounds : ℕ) (w : World) → (drain host client rounds w).queue ≡ drop rounds w.queue
  unfolding drain
  queue-drain zero w = refl
  queue-drain (suc rounds) w =
      queue-drain rounds (worker_round host client w).1
      ∙ ap (drop rounds) (queue-worker_round host client w)
      ∙ drop-drop_one rounds w.queue

  running-stopped :
      (rounds : ℕ) (p : Process) (e : Executor)
      → e.running ≡ true
      → let q = stopped host client rounds (some e) p in
        (q.world.queue ≡ drop rounds p.world.queue)
        × (q.executor ≡ some (record { running = false; workers = 0 }))
  unfolding stop
  running-stopped rounds p e on = (rw on (queue-drain rounds p.world), rw on)

  waits :
      (rounds : ℕ) (p : Process) (e : Executor) (async : Bool) (o : Option Executor)
      → async ≡ true
      → o ≡ some e
      → (if async then stopped host client rounds o p else p)
        ≡ stopped host client rounds (some e) p
  waits rounds p e async o mode here = rw (mode, here)

-- The shutdown of a running executor takes one item from the front of the queue in each round that
-- the timeout leaves it, whatever becomes of the item: with as many rounds as items the queue is
-- empty. The executor has then stopped, and the shared client is closed.
pub shutdown_drains :
    (host : Host) (client : Client) (rounds : ℕ) (p : Process) (e : Executor)
    → host.settings.webhook_async_execution ≡ true
    → p.executor ≡ some e
    → e.running ≡ true
    → let q = shutdown host client rounds p in
      (q.world.queue ≡ drop rounds p.world.queue)
      × (length q.world.queue ≡ length p.world.queue - rounds)
      × (q.executor ≡ some (record { running = false; workers = 0 }))
      × (q.binance_client ≡ none)
unfolding shutdown close_binance_client
shutdown_drains host client rounds p e mode here on =
    let (left, off) = running-stopped host client rounds p e on in
    let same =
      waits host client rounds p e host.settings.webhook_async_execution p.executor mode here in
    let rest = ap (λ (q : Process). q.world.queue) same ∙ left in
    (
      rest,
      ap length rest ∙ length-drop rounds p.world.queue,
      ap (λ (q : Process). q.executor) same ∙ off,
      refl,
    )
