-- ===== src/Tests/Queues.antt =====
-- The theorems on the queue at concrete inputs.
use prima_db.Prelude.{ℕ, ◌≡◌, none, if◌then◌else◌}
use prima_db.Queue.{
  CompactedOperations, OperationCompactionKey, from_operation, key_eq, push, from_operations,
  drain_prefix,
}
use prima_db.Queue.Invariant.{IsIndexed, push-IsIndexed, drain_prefix-IsIndexed}
use prima_db.Queue.Content.{
  held, newest, newest_on, held-push, held-from_operations, from_operations-IsIndexed,
}
use prima_db.Tests.Data.{doc, title, tagged, all_four}

abbrev queue : CompactedOperations ℕ
queue = from_operations all_four

queue-IsIndexed : IsIndexed queue
queue-IsIndexed = from_operations-IsIndexed all_four

push-IsIndexed_example : IsIndexed (push queue tagged)
push-IsIndexed_example = push-IsIndexed queue tagged queue-IsIndexed

drain_prefix-IsIndexed_example : IsIndexed (drain_prefix queue 1)
drain_prefix-IsIndexed_example = drain_prefix-IsIndexed queue 1 queue-IsIndexed

held-push_example : held (push queue tagged).operations (from_operation tagged) ≡ (
    if key_eq (from_operation tagged) (from_operation tagged)
    then newest (held queue.operations (from_operation tagged)) tagged
    else held queue.operations (from_operation tagged))
held-push_example = held-push queue tagged (from_operation tagged) queue-IsIndexed

held-from_operations_example :
    held (from_operations all_four).operations (OperationCompactionKey.field doc title)
    ≡ newest_on (OperationCompactionKey.field doc title) none all_four
held-from_operations_example =
    held-from_operations all_four (OperationCompactionKey.field doc title)
