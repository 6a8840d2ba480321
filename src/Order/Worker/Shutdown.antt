-- ===== src/Order/Worker/Shutdown.antt =====
-- The worker when its context is done.
use hedonify.Prelude.{ℕ, ◌≡◌, refl, subst, some}
use hedonify.Prelude.Map.{lookup, lookup-insert_fresh}
use hedonify.Order.Channel.{Channel, open_channel, ok}
use hedonify.Order.Worker.{
  Worker, request, Process, running, returned, context_done, round, Move, rounds, asks, leaves,
  Moves, stays, moves,
}

-- The worker has returned, and its tables and its answers on a channel are those of an earlier
-- worker.
abbrev pub Abandons : Worker → ℕ → Channel → Process → Type 0
Abandons w a c (running v) = ⊥
Abandons w a c (returned v) = (v.db ≡ w.db) × (lookup a v.channels ≡ some c)

Move-Abandons :
    (w : Worker) (a : ℕ) (c : Channel) (p q : Process)
    → Move p q
    → Abandons w a c p
    → Abandons w a c q
unfolding request
Move-Abandons w a c p q (rounds case offered e) h = absurd h
Move-Abandons w a c p q (asks (running v) order fresh) h = absurd h
Move-Abandons w a c p q (asks (returned v) order fresh) (same, found) =
    (same, lookup-insert_fresh a order.result_channel c open_channel v.channels fresh found)
Move-Abandons w a c p q (leaves (running v) before after order e) h = absurd h
Move-Abandons w a c p q (leaves (returned v) before after order e) h = h

ok-injective : {A : Type 0} {a b : A} → ok a ≡ ok b → a ≡ b
ok-injective e = cc

-- When the worker's loop takes the case of its done context, the worker has returned, and from then
-- on, whatever requests arrive or run out of time: its tables stay as they are, and a channel that no
-- result has reached by then has none. So the orders of the pending batch are neither recorded nor
-- answered.
pub round-Abandons :
    (w : Worker) (p q : Process) (a : ℕ)
    → round context_done w ≡ ok p
    → Moves p q
    → lookup a w.channels ≡ some open_channel
    → Abandons w a open_channel q
unfolding round
round-Abandons w p q a e ms found = go q ms
  where
    go : (r : Process) → Moves p r → Abandons w a open_channel r
    go r stays = subst (Abandons w a open_channel) (ok-injective e) (refl, found)
    go r (moves {q = v} ms' m) = Move-Abandons w a open_channel v r m (go v ms')
