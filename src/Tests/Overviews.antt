-- ===== src/Tests/Overviews.antt =====
-- The overview of three queues, two to a page.
use gotasks.Mongo.Driver.{got}
use gotasks.Mongo.Overview.{QueueReads, View, walk}
use gotasks.Mongo.Overview.Pages.{IsQueueReads, after_name}
use gotasks.Mongo.Overview.Walk.{IsWalked, walk-IsWalked}
use gotasks.Mongo.Registry.{QueueDoc}
use gotasks.Prelude.{List, ◌∷◌, [], refl, inr, take, none}
use gotasks.Prelude.Int.{pos}
use gotasks.Prelude.Text.{Text, bytes, text_lt, text_eq}
use gotasks.Task.{zero_time}
use gotasks.Tests.Collections.{slot}

abbrev queue_doc : Text → QueueDoc
queue_doc name = record {
  name = name;
  ttl_ms = pos 1000;
  max_attempts = pos 3;
  created_at = zero_time;
  updated_at = zero_time;
}

abbrev three_queues : List QueueDoc
three_queues =
    queue_doc (bytes "bills") ∷ queue_doc (bytes "mail") ∷ queue_doc (bytes "reports") ∷ []

abbrev three_docs : QueueReads
three_docs = record {
  find_page = λ after limit. got (take limit (after_name after three_queues));
  count_documents = got 3;
  find_one = λ name. got none;
}

three_docs-IsQueueReads : IsQueueReads three_docs three_queues
three_docs-IsQueueReads = record {
  ordered = unfold text_lt in ((refl, (refl, tt)), ((refl, tt), (tt, tt)));
  named = unfold text_eq in (refl, (refl, (refl, tt)));
  pages = λ after limit. inr refl;
}

abbrev empty_slot : View slot
empty_slot name = (pos 500, none)

walk-IsWalked_example : IsWalked three_queues (walk slot 4 three_docs empty_slot (pos 2) [])
walk-IsWalked_example =
    walk-IsWalked slot three_docs three_queues three_docs-IsQueueReads empty_slot (pos 2)
