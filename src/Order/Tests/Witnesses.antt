-- ===== src/Order/Tests/Witnesses.antt =====
-- The theorems on the order service, at the inputs of the parent module.
use mathlib.Core.Option
use hedonify.Prelude.{
  ℕ, ◌+◌, ◌≡◌, ◌≢◌, refl, sym, ap, ◌∙◌, ℤ, pos, Bool, true, false, List, [], ◌∷◌, ◌++◌, Option,
  none, some, arith, All, IsInt32, ◌==◌, if◌then◌else◌, wrap32, add32, sub32, ◌+ℤ◌, ◌-ℤ◌, length,
}
use hedonify.Prelude
use hedonify.Prelude.Map.{lookup}
use hedonify.Repository.Models.{Product}
use hedonify.Order.Request.{commit_failed}
use hedonify.Order.Batch.Items.{requested, of_product}
use hedonify.Order.Batch.Merge.{merge_order_items}
use hedonify.Order.Batch.Merge.Entries.{entry, merge_order_items-lookup}
use hedonify.Order.Batch.Merge.Orders.{first_order}
use hedonify.Order.Batch.Check.{Maps}
use hedonify.Order.Batch.Check.Drop.{strip}
use hedonify.Order.Batch.Check.Loop.{of_items}
use hedonify.Order.Batch.Check.Products.{IsStocked, IsBalanced, stock}
use hedonify.Order.Batch.Check.Allotment.{find_product, allotted, checked, check_allots}
use hedonify.Order.Batch.Stock.Sold.{sold}
use hedonify.Order.Batch.Stock.Conservation.{got, transaction-conserves}
use hedonify.Order.Channel.{Channels, ok, panic, result_for}
use hedonify.Order.Channel.Delivery.{AreAnswered, error_result}
use hedonify.Order.Worker.{tick, here}
use hedonify.Order.Worker.Answers.{tick_commits, tick_fails}
use hedonify.Order.Worker.Crash.{failed_batch_panics}
use hedonify.Order.Tests.{
  first, second, batch, tea, coffee, tables, host, no_faults, commit_fault, channels, worker,
  committed, told, batch-IsRegular, tables-AreKeyed, tables-AreStocked, channels-AreOpen, commits,
  fails, ticks_told,
}

transaction-conserves_example :
    (product' : Product) × (find_product 7 committed.1.products ≡ some product')
    × (stock product' + got tea batch ≡ stock tea)
    × (sold 7 committed.1.order_items ≡ sold 7 tables.order_items + got tea batch)
    × IsStocked product'
transaction-conserves_example =
    transaction-conserves host no_faults batch tables committed.1 committed.0 batch-IsRegular
      tables-AreKeyed tables-AreStocked commits 7 tea refl

check_allots_example :
    (m : Maps) × (checked (tea ∷ coffee ∷ []) batch ≡ Prelude.ok m)
    × ((p : ℕ)
        → lookup p m.map_merged_order_item
          ≡ Option.map
              (λ e. of_items (allotted (tea ∷ coffee ∷ []) p e.items))
              (entry (of_product p (requested batch))))
    × IsBalanced m
    × ((o : ℕ) → Option.map strip (lookup o m.map_order) ≡ Option.map strip (first_order o batch))
check_allots_example =
    check_allots (tea ∷ coffee ∷ []) batch tables-AreStocked tables-AreKeyed batch-IsRegular

tick_commits_example :
    (cs : Channels) × (tick host no_faults worker
      ≡ ok (record worker { batch = []; db = committed.1; channels = cs }))
    × AreAnswered (result_for committed.0) batch cs
    × ((b : ℕ) → All (λ param. param.result_channel ≢ b) batch → lookup b cs ≡ lookup b channels)
tick_commits_example =
    tick_commits host no_faults worker first (second ∷ []) committed.0 committed.1 refl
      channels-AreOpen commits

tick_fails_example :
    (cs : Channels) × (tick host commit_fault worker ≡ ok (record worker { channels = cs }))
    × AreAnswered (error_result commit_failed) batch cs
tick_fails_example =
    tick_fails host commit_fault worker first (second ∷ []) commit_failed refl channels-AreOpen
      fails

failed_batch_panics_example : tick host no_faults told ≡ panic
failed_batch_panics_example =
    failed_batch_panics host host commit_fault no_faults worker told told ticks_told (λ e. cc e)
      here

merge_order_items-lookup_example :
    lookup 7 (merge_order_items batch).map_merged_order_item
    ≡ entry (of_product 7 (requested batch))
merge_order_items-lookup_example =
    merge_order_items-lookup 7 batch
      ((omega arith, omega arith), ((omega arith, omega arith), ((omega arith, omega arith), tt)))
