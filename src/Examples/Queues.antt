-- ===== src/Examples/Queues.antt =====
-- queue_selector.py and ready_execution.py: runs of a poll.
use steady_queue.Prelude.{◌≡◌, refl, false, [], ◌∷◌, some}
use steady_queue.Action.{ok}
use steady_queue.Db.{has_claimed}
use steady_queue.Claimed.{repeated, new_claim}
use steady_queue.QueueSelector.{
  queued_as, mem, scoped_relations, is_all, queue_names, eligible_queues, in_raw_order, exact_names,
  prefixed_names, prefixes, distinct, items, delete_in_order, remove, flatten, compact,
  is_exact_name, is_prefixed_name, starts_with, without_stars, in_relation,
}
use steady_queue.QueueSelector.Paused.{scoped_relations_open}
use steady_queue.QueueSelector.Order.{scoped_relations_exact}
use steady_queue.Ready.{lock_candidates, claim}
use steady_queue.Ready.Lock.{lock_candidates_lem, locked_db}
use steady_queue.Ready.Bound.{ClaimsWithin, claim-ClaimsWithin}
use steady_queue.Examples.{env, mails, bills, two_ready}

open_relations :
    scoped_relations ("mail*" ∷ "billing" ∷ []) (mails ∷ bills ∷ []) ("archive" ∷ [])
    ≡ ok (queued_as "mail_out" ∷ queued_as "billing" ∷ [])
unfolding scoped_relations is_all queue_names eligible_queues in_raw_order exact_names
    prefixed_names prefixes distinct items delete_in_order remove flatten compact is_exact_name
    is_prefixed_name starts_with without_stars
open_relations = refl

scoped_relations_open_example : mem "billing" ("archive" ∷ []) ≡ false
unfolding in_relation
scoped_relations_open_example =
    scoped_relations_open ("mail*" ∷ "billing" ∷ []) (mails ∷ bills ∷ []) ("archive" ∷ [])
      (queued_as "mail_out" ∷ queued_as "billing" ∷ []) bills open_relations refl

scoped_relations_exact_example :
    scoped_relations
      ("billing" ∷ "mail_out" ∷ "archive" ∷ [])
      (mails ∷ bills ∷ [])
      ("mail_out" ∷ [])
    ≡ ok (queued_as "billing" ∷ queued_as "archive" ∷ [])
unfolding is_exact_name
scoped_relations_exact_example =
    scoped_relations_exact ("billing" ∷ "mail_out" ∷ "archive" ∷ []) (mails ∷ bills ∷ [])
      ("mail_out" ∷ []) (refl, (refl, (refl, tt))) refl

lock_candidates_lem_example :
    lock_candidates 7 (bills ∷ mails ∷ []) two_ready
    ≡ (ok (new_claim 7 5 ∷ new_claim 7 4 ∷ []), locked_db 7 (bills ∷ mails ∷ []) two_ready)
unfolding has_claimed repeated
lock_candidates_lem_example = lock_candidates_lem 7 bills (mails ∷ []) two_ready refl

claim-ClaimsWithin_example : ClaimsWithin 1 7 (claim env ("*" ∷ []) 1 (some 7) two_ready).0
claim-ClaimsWithin_example = claim-ClaimsWithin env ("*" ∷ []) 1 7 two_ready
