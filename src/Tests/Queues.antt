-- ===== src/Tests/Queues.antt =====
-- The functions of queue.c on the queues that `_init` makes.
use systems_os.Prelude.{◌≡◌, refl, arith}
use systems_os.Machine.{Returns}
use systems_os.Queue
use systems_os.Queue.{Ptr, null, Store, Qnode, compare_time, nonneg}
use systems_os.Queue.View.{View, Represents}
use systems_os.Queue.Insert.{view_insert}
use systems_os.Queue.Insert.Law.{insert-view}
use systems_os.Queue.Remove.{first_item, view_remove, remove-view}
use systems_os.Queue.Order.{Sorted, insert-Sorted}
use systems_os.Boot.Modules.{booted}
use systems_os.Tests.{
  at_rest, at_rest-IsKernel, queues, queues-Represents, queues_free, queues_view,
}

-- Queues.
insert-view_example :
    Returns (λ _ m'. Represents m' (view_insert 4 77 5 queues_view)) (Queue.insert 4 77 5 queues)
insert-view_example =
    insert-view queues queues_view 4 77 5 queues-Represents (omega arith) queues_free

remove-view_example :
    Returns
      (λ x m'. (x ≡ first_item (queues_view.items 1)) × Represents m' (view_remove 1 queues_view))
      (Queue.remove 1 queues)
remove-view_example = remove-view queues queues_view 1 queues-Represents (omega arith)

insert-Sorted_example :
    Returns
      (λ _ m'. (v' : View) × Represents m' v' × Sorted (v'.items 8))
      (Queue.insert 8 3 50 at_rest.store)
insert-Sorted_example =
    insert-Sorted at_rest.store booted 8 3 50 0 at_rest-IsKernel.view (omega arith) (omega arith)
      refl (omega arith) (omega arith) (omega arith) tt tt
