-- ===== src/Tests/Watching.antt =====
-- The watch of mongostore with two deadlines, the later one seen first, its registry of queues as a
-- list, and its opening.
use gotasks.Mongo.Watch.{accept, nudge}
use gotasks.Mongo.Registry.{register_queues, millisecond}
use mathlib.Core.Path.{subst}
use gotasks.Mongo.Config.{
  Setter, with_namespace, with_enqueue_chunk_size, Answers, new_store, from_client, set_all,
  default_config,
}
use gotasks.Mongo.Config.Opening.{IsClean, IsLent, new_store-IsClean}
use gotasks.Task.{queue_conflict, Duration, Time, QueuePolicy}
use gotasks.Prelude.Text.{text_eq_refl, bytes, text_eq, text_eq_iff, Text}
use gotasks.Prelude.Int.{quot_ℤ, pos}
use gotasks.Prelude.{
  Bool, none, some, if◌then◌else◌, refl, inr, sym, ◌≡◌, false, Option, List, true, ◌*◌, inl, arith,
  ◌∷◌, [],
}
use gotasks.Mongo.Watch.{
  see, receive, receives, rearm, push, sees, Turn, accepts, run_at_of, opened, rings, take_turn,
  run, insert_event, update_event,
}
use gotasks.Mongo.Watch.Deadlines.{IsTimely, run-IsTimely}
use gotasks.Mongo.Watch.Nudges.{Nudged, run-Nudged}
use gotasks.Mongo.Registry.{agrees, to_policy, QueueDoc, to_queue_doc, QueueDocs}
use gotasks.Mongo.Registry.Guard.{
  Kept, to_policy-to_queue_doc, Guarded, IsQueueDocs, register_queues-Guarded,
}
use gotasks.Mongo.Driver.{Reply, got, lost}
use mathlib.Core.List.{Memᴰ}

abbrev two_deadlines : List (Turn × Time)
two_deadlines =
    (sees (insert_event (pos 500)), pos 10)
    ∷ (accepts, pos 20)
    ∷ (sees (update_event (some (pos 300))), pos 30)
    ∷ (receives, pos 35)
    ∷ (accepts, pos 40)
    ∷ []

abbrev two_rings : List (Turn × Time)
two_rings = (rings, pos 310) ∷ (receives, pos 320) ∷ (rings, pos 520) ∷ []

run-IsTimely_example : IsTimely (pos 600) (run two_deadlines (opened (pos 5)))
run-IsTimely_example =
    run-IsTimely two_deadlines (pos 5) (pos 600)
      (omega arith, (omega arith, (omega arith, (omega arith, (omega arith, tt)))))

both_held : (run two_deadlines (opened (pos 5))).deadlines ≡ pos 300 ∷ pos 500 ∷ []
unfolding run take_turn see accept rearm push opened nudge receive run_at_of
both_held = refl

later_held : Memᴰ (pos 500) (run two_deadlines (opened (pos 5))).deadlines
later_held = subst (Memᴰ (pos 500)) (sym both_held) (Memᴰ.tail (Memᴰ.head refl))

run-Nudged_example : Nudged (pos 500) two_rings (run two_deadlines (opened (pos 5)))
run-Nudged_example =
    run-Nudged (pos 500) (pos 600) two_rings (run two_deadlines (opened (pos 5)))
      (omega arith, (omega arith, (omega arith, tt))) run-IsTimely_example later_held
      (inr (inl (omega arith)))

unfoldable find_named : Text → List QueueDoc → Option QueueDoc
find_named n [] = none
find_named n (d ∷ ds) = if text_eq d.name n then some d else find_named n ds

abbrev insert_named : QueueDoc → List QueueDoc → Option QueueDoc → List QueueDoc × Reply Bool
insert_named d ds none = (d ∷ ds, got true)
insert_named d ds (some e) = (ds, got false)

abbrev listed_queues : QueueDocs
listed_queues = record {
  State = List QueueDoc;
  registered_doc = find_named;
  find_one = λ n ds. (ds, got (find_named n ds));
  insert_one = λ d ds. insert_named d ds (find_named d.name ds);
  find_all = λ ds. (ds, got ds);
  upsert = λ n ttl_ms attempts now ds. (ds, lost);
}

insert-keeps :
    (d : QueueDoc) (ds : List QueueDoc) (r : Option QueueDoc)
    → find_named d.name ds ≡ r
    → Kept listed_queues ds (insert_named d ds r).0
      × ((insert_named d ds r).1 ≡ got true → find_named d.name (insert_named d ds r).0 ≡ some d)
unfolding find_named
insert-keeps d ds none h =
    ((λ n e k. ground (arith, text_eq_iff d.name n)), λ k. ground (arith, text_eq_refl d.name))
insert-keeps d ds (some e) h = ((λ n x k. k), λ k. ground arith)

listed_queues-IsQueueDocs : IsQueueDocs listed_queues
listed_queues-IsQueueDocs = record {
  find_one-Kept = λ n s m d h. h;
  finds = λ n s r h. ground arith;
  insert_one-Kept = λ d s. (insert-keeps d s (find_named d.name s) refl).0;
  inserts = λ d s. (insert-keeps d s (find_named d.name s) refl).1;
}

abbrev mail_queue : Duration → QueuePolicy
mail_queue ttl = record { name = bytes "mail"; ttl = ttl; max_attempts = pos 3 }

-- The same queue twice, with policies that differ.
abbrev drifting : List QueuePolicy
drifting = mail_queue (pos (5 * millisecond)) ∷ mail_queue (pos (6 * millisecond)) ∷ []

register_queues-Guarded_example :
    Kept listed_queues [] (register_queues listed_queues drifting (pos 10) []).0
    × Guarded listed_queues drifting (register_queues listed_queues drifting (pos 10) [])
register_queues-Guarded_example =
    register_queues-Guarded listed_queues listed_queues-IsQueueDocs drifting (pos 10) []

drift_is_conflict : (register_queues listed_queues drifting (pos 10) []).1 ≡ some queue_conflict
unfolding register_queues find_named text_eq to_queue_doc agrees quot_ℤ
drift_is_conflict = refl

to_policy-to_queue_doc_example :
    to_policy (to_queue_doc (mail_queue (pos (60000 * millisecond))) (pos 10))
    ≡ mail_queue (pos (60000 * millisecond))
to_policy-to_queue_doc_example =
    to_policy-to_queue_doc (bytes "mail") 60000 (pos 3) (pos 10) (omega arith)

abbrev in_big_chunks : List Setter
in_big_chunks = with_namespace (bytes "shop") ∷ with_enqueue_chunk_size (pos 5000) ∷ []

abbrev no_ping : Answers
no_ping = record { connects = true; pings = false; ensures_indexes = true }

new_store-IsClean_example :
    IsClean (set_all in_big_chunks default_config) no_ping (new_store in_big_chunks no_ping)
    × IsLent (set_all in_big_chunks default_config) no_ping (from_client in_big_chunks no_ping)
new_store-IsClean_example = new_store-IsClean in_big_chunks no_ping
