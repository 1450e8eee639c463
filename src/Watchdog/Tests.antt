-- ===== src/Watchdog/Tests.antt =====
-- The watchdog at a concrete input.
use rag_foundation.Common.{◌≡◌, refl, [], ◌∷◌, some, arith}
use rag_foundation.Common.Str.{codes}
use rag_foundation.Models.{
  Document, Database, running, error, is_status, set_status, update_documents, get_document,
  get_store,
}
use rag_foundation.Ingestion.Job.{Run, run_ingestion_sync}
use rag_foundation.Ingestion.Outcome.{IsSettled}
use rag_foundation.Ingestion.Sample.{doc, store, db, start, world, path, has_time}
use rag_foundation.Watchdog.{
  is_in_use, is_stuck, free, reset_stuck_documents, named_user, admin_reset_stuck,
}
use rag_foundation.Watchdog.Freed.{IsStuck, reset-settles}

program : Unit {0}
unfolding is_in_use is_stuck free reset_stuck_documents named_user admin_reset_stuck is_status
    set_status update_documents get_document get_store
program = tt

-- A document that has been running since tick 5.
abbrev hanging : Document
hanging = record doc { status = running; op_name = some (codes "operations/1") }

abbrev hung : Database
hung = record db { documents = hanging ∷ [] }

freed :
    (reset_stuck_documents 100 30 hung).documents
    ≡ record doc { status = error; status_updated_at = 100 } ∷ []
unfolding program
freed = refl

-- Nothing is stuck for a longer time, or for another user.
left_alone :
    ((reset_stuck_documents 100 95 hung).documents ≡ hanging ∷ [])
    × ((admin_reset_stuck 100 30 (some 2) hung).1 ≡ 0)
    × ((admin_reset_stuck 100 30 (some 1) hung).1 ≡ 1)
unfolding program
left_alone = (refl, refl, refl)

abbrev hung_run : Run
hung_run = record start { db = hung }

hanging-IsStuck : IsStuck 70 3 7 hung
unfolding program
hanging-IsStuck = record {
  doc = hanging;
  store = store;
  row = refl;
  alive = refl;
  store_row = refl;
  store_alive = refl;
  owned = refl;
  busy = refl;
  old = omega arith;
}

reset-settles_example :
    (end : Run) × (run_ingestion_sync world 3 7 path
        (record hung_run { db = reset_stuck_documents 100 30 hung })
      ≡ some end)
    × ((d : Document) × (get_document 7 end.db.documents ≡ some d) × IsSettled d)
    × (end.removed_paths ≡ path ∷ [])
reset-settles_example = reset-settles 100 30 3 7 world path hung_run hanging-IsStuck has_time
