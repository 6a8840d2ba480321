-- ===== src/Order/Worker/Ready.antt =====
-- The channels of the requests that wait and of the pending batch, as the worker runs.
use mathlib.Core.List.{append_assoc}
use hedonify.Prelude.{
  ◌≡◌, ◌≢◌, refl, sym, ap, ◌∙◌, List, [], ◌∷◌, ◌++◌, some, inl, inr, subst, All, ◌⊎◌, ==_refl,
}
use hedonify.Prelude.Map.{Map, lookup, insert, lookup-insert}
use hedonify.Repository.Models.{Db}
use hedonify.Order.Request.{CreateOrder, OrderResponse, Result}
use hedonify.Order.Batch.Attempt.{Attempt, done, failed, crashed}
use hedonify.Order.Batch.Create.{Host, Faults, transaction}
use hedonify.Order.Batch.Check.Products.{IsStocked}
use hedonify.Order.Batch.Check.Allotment.{AreKeyed, IsRegular}
use hedonify.Order.Batch.Stock.Ends.{transaction-returns}
use hedonify.Order.Channel.{open_channel, ok, panic, result_for}
use hedonify.Order.Channel.Delivery.{AreOpen, AreAnswered, error_result}
use hedonify.Order.Channel.Open.{
  AreOthers, AreOpen-without, AreOpen-with, AreOpen-fresh, AreOpen-rest, AreOpen-append_left,
}
use hedonify.Order.Worker.{
  answer, Worker, tick, request, receive, Step, ticks, requests, receives, gives_up, Reach, here,
  next,
}
use hedonify.Order.Worker.Tick.{tick_empty, tick_batch}
use hedonify.Order.Worker.Answers.{tick_commits, tick_fails}
use hedonify.Order.Worker.Crash.{IsDoomed, tick_pending, Step-IsDoomed, ok-injective}

-- The requests of the batch and those that wait have channels of their own, open and empty.
abbrev IsReady : Worker → Type 0
IsReady w = AreOpen (w.batch ++ w.waiting) w.channels

tick_crashed :
    (host : Host) (faults : Faults) (w w' : Worker) (order : CreateOrder) (rest : List CreateOrder)
    → w.batch ≡ order ∷ rest
    → transaction host faults (order ∷ rest) w.db ≡ crashed
    → tick host faults w ≢ ok w'
unfolding answer
tick_crashed host faults w w' order rest b ran e =
    let crashes : tick host faults w ≡ panic =
      tick_batch host faults w order rest b ∙ rw (ran) refl in
    cc

tick-IsReady :
    (host : Host) (faults : Faults) (w w' : Worker) (batch : List CreateOrder)
    → w.batch ≡ batch
    → tick host faults w ≡ ok w'
    → IsReady w
    → IsReady w' ⊎ IsDoomed w'
tick-IsReady host faults w w' [] b e ready =
    inl (subst IsReady (ok-injective (sym (tick_empty host faults w b) ∙ e)) ready)
tick-IsReady host faults w w' (order ∷ rest) b e ready =
    ended (transaction host faults (order ∷ rest) w.db) refl
  where
    ready' : AreOpen ((order ∷ rest) ++ w.waiting) w.channels
    ready' = subst (λ x. AreOpen (x ++ w.waiting) w.channels) b ready

    ended :
        (t : Attempt (Map OrderResponse × Db))
        → transaction host faults (order ∷ rest) w.db ≡ t
        → IsReady w' ⊎ IsDoomed w'
    ended (done (responses, db)) ran =
        let (cs, ticked, _, kept) =
          tick_commits host faults w order rest responses db b
            (AreOpen-append_left (order ∷ rest) w.waiting w.channels ready') ran in
        inl (
          subst IsReady (ok-injective (sym ticked ∙ e))
            (AreOpen-rest (order ∷ rest) w.waiting w.channels cs kept ready'))
    ended (failed er) ran =
        let (cs, ticked, _) =
          tick_fails host faults w order rest er b
            (AreOpen-append_left (order ∷ rest) w.waiting w.channels ready') ran in
        let same = ap (λ (v : Worker). v.batch) (ok-injective (sym ticked ∙ e)) in
        inr (tick_pending host faults w w' (order ∷ rest) b e (λ empty. cc))
    ended crashed ran = absurd (tick_crashed host faults w w' order rest b ran e)

taken_out :
    (w : Worker) (before after : List CreateOrder) (order : CreateOrder)
    → w.waiting ≡ before ++ order ∷ after
    → IsReady w
    → (lookup order.result_channel w.channels ≡ some open_channel)
      × AreOthers order (w.batch ++ (before ++ after))
      × AreOpen (w.batch ++ (before ++ after)) w.channels
taken_out w before after order e ready =
    subst
      (λ x.
        (lookup order.result_channel w.channels ≡ some open_channel)
        × AreOthers order x
        × AreOpen x w.channels)
      (append_assoc w.batch before after)
      (AreOpen-without (w.batch ++ before) order after w.channels (
        subst (λ x. AreOpen x w.channels)
          (ap (λ x. w.batch ++ x) e ∙ sym (append_assoc w.batch before (order ∷ after))) ready))

Step-IsReady : {w w' : Worker} → Step w w' → IsReady w → IsReady w' ⊎ IsDoomed w'
unfolding request receive
Step-IsReady {w} {w'} (ticks host faults e) ready =
    tick-IsReady host faults w w' w.batch refl e ready
Step-IsReady {w} (requests order fresh) ready =
    let (others, opened) = AreOpen-fresh order (w.batch ++ w.waiting) w.channels fresh ready in
    inl (
      AreOpen-with w.batch order w.waiting (insert order.result_channel open_channel w.channels)
        (rw
          (
            lookup-insert order.result_channel order.result_channel open_channel w.channels,
            ==_refl order.result_channel,
          )
          refl)
        others opened)
Step-IsReady {w} (receives before after order e) ready =
    let (found, others, opened) = taken_out w before after order e ready in
    inl (
      subst (λ x. AreOpen x w.channels) (sym (append_assoc w.batch (order ∷ []) (before ++ after)))
        (AreOpen-with w.batch order (before ++ after) w.channels found others opened))
Step-IsReady {w} (gives_up before after order e) ready =
    let (found, others, opened) = taken_out w before after order e ready in inl opened

-- Every state that the worker comes to is ready, or a batch has failed and is pending still.
Reach-IsReady : {w w' : Worker} → Reach w w' → IsReady w → IsReady w' ⊎ IsDoomed w'
Reach-IsReady here ready = inl ready
Reach-IsReady (next r s) ready = elim (Reach-IsReady r ready) [
  | inl ready' ↦ Step-IsReady s ready'
  | inr doomed ↦ inr (Step-IsDoomed s doomed)
]

-- A worker that starts with no requests, whatever requests then arrive, enter the batch or give up and
-- whatever ticks it has survived: where its pending batch is regular, and the products have distinct
-- identifiers and stocks that are not negative, then either the first request of the batch has been
-- answered before, by a tick whose batch failed, or the next tick returns, whatever calls of the
-- database fail, with every request of the batch answered once on its closed channel.
pub reached_tick-answers :
    (host : Host) (faults : Faults) (start w : Worker) (order : CreateOrder)
    (rest : List CreateOrder)
    → start.batch ≡ []
    → start.waiting ≡ []
    → Reach start w
    → w.batch ≡ order ∷ rest
    → IsRegular (order ∷ rest)
    → AreKeyed w.db.products
    → All IsStocked w.db.products
    → IsDoomed w
      ⊎ ((w' : Worker) × (f : (CreateOrder → Result)) × (tick host faults w ≡ ok w')
          × AreAnswered f (order ∷ rest) w'.channels)
reached_tick-answers host faults start w order rest empty alone r b regular keyed stocked =
    elim (Reach-IsReady r (rw (empty, alone) tt)) [
      | inr doomed ↦ inl doomed
      | inl ready ↦ inr (
          answers
            (AreOpen-append_left (order ∷ rest) w.waiting w.channels
              (subst (λ x. AreOpen (x ++ w.waiting) w.channels) b ready))
            (transaction host faults (order ∷ rest) w.db) refl)
    ]
  where
    answers :
        AreOpen (order ∷ rest) w.channels
        → (t : Attempt (Map OrderResponse × Db)) → transaction host faults (order ∷ rest) w.db ≡ t
        → (w' : Worker) × (f : (CreateOrder → Result)) × (tick host faults w ≡ ok w')
          × AreAnswered f (order ∷ rest) w'.channels
    answers opened (done (responses, db)) ran =
        let (cs, ticked, told, _) =
          tick_commits host faults w order rest responses db b opened ran in
        (record w { batch = []; db = db; channels = cs }, result_for responses, ticked, told)
    answers opened (failed er) ran =
        let (cs, ticked, told) = tick_fails host faults w order rest er b opened ran in
        (record w { channels = cs }, error_result er, ticked, told)
    answers opened crashed ran =
        absurd (transaction-returns host faults (order ∷ rest) w.db regular keyed stocked ran)
