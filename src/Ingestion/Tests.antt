-- ===== src/Ingestion/Tests.antt =====
-- The ingestion job at concrete inputs: one document of one store, and Gemini done at the second poll.
use rag_foundation.Common.{
  All, arith, true, ℕ, ◌≡◌, refl, inl, [], ◌∷◌, ◌++◌, Option, none, some, length,
}
use rag_foundation.Common.Str.{codes, eq_str, starts_with, is_space, lstrip, strip, lower, to_lower}
use rag_foundation.Models.{
  done, error, is_status, Document, set_status, touch_status, get_document, get_store, put_document,
  write_document,
}
use rag_foundation.Costs.Price.{quantize, token_cost, estimate_tokens_from_bytes, index_cost}
use rag_foundation.Costs.Rates.{
  find_model, candidate, longest_prefix, rates_for, pick, resolve_model_rates, calc_index_cost,
}
use rag_foundation.Ingestion.Wait.{next_wait, wait_loop, wait_for_operation_completion}
use rag_foundation.Ingestion.Sanitize.{
  is_path_char, is_tail_char, span, match_root, match_path, sub_paths, sanitize_error,
  sub_paths-leak,
}
use rag_foundation.Ingestion.Job.{
  Run, upload_raised, usable_store, claim_document, claim, store_file_id, check_op_name, transfer,
  settle, log_index_cost, ingest, conclude, run_ingestion_sync,
}
use rag_foundation.Ingestion.Outcome.{IsSettled}
use rag_foundation.Ingestion.Guarantees.{run_total}
use rag_foundation.Ingestion.Uploads.{rerun, rerun-uploads}
use rag_foundation.Ingestion.Settles.{IsWaiting, run_settles}
use rag_foundation.Ingestion.Sample.{doc, store, db, start, world, path, has_time}

program : Unit {0}
unfolding eq_str starts_with is_space lstrip strip lower to_lower is_status set_status touch_status
    get_document get_store put_document write_document quantize token_cost
    estimate_tokens_from_bytes index_cost find_model candidate longest_prefix rates_for pick
    resolve_model_rates calc_index_cost next_wait wait_loop wait_for_operation_completion
    is_path_char is_tail_char span match_root match_path sub_paths sanitize_error usable_store
    claim_document claim store_file_id check_op_name transfer settle log_index_cost ingest conclude
    run_ingestion_sync
program = tt

abbrev outcome : Option Run → Option (Option Document × ℕ × ℕ)
outcome none = none
outcome (some r) = some (get_document 7 r.db.documents, r.uploads, length r.db.query_logs)

ingested :
    outcome (run_ingestion_sync world 3 7 (codes "/tmp/a") start)
    ≡ some (
      some (record doc {
        status = done;
        status_updated_at = 40;
        op_name = some (codes "operations/1");
        gemini_file_id = some (codes "files/9");
      }),
      1,
      1,
    )
unfolding program
ingested = refl

-- A failed upload is recorded, with the path cut out of its text.
upload_failed :
    outcome (
      run_ingestion_sync
        (record world { upload = upload_raised (codes "no /srv/tmp/a.pdf") })
        3
        7
        (codes "/tmp/a")
        start)
    ≡ some (
      some (record doc {
        status = error;
        status_updated_at = 40;
        last_error = some (codes "no [path]");
      }),
      1,
      0,
    )
unfolding program
upload_failed = refl

data_chars : All (λ c. is_path_char c ≡ true) (codes "data")
unfolding program
data_chars = (refl, (refl, (refl, (refl, tt))))

sub_paths-leak_example :
    sub_paths 0 (codes "/data/tmp/secret") ≡ codes "[path]" ++ sub_paths 0 (codes "secret")
sub_paths-leak_example =
    sub_paths-leak b'd' (codes "ata") (codes "/") (codes "ecret") data_chars
      (((λ e. omega (arith, e)), (λ e. omega (arith, e))), tt)

run_total_example : (end : Run) × (run_ingestion_sync world 3 7 path start ≡ some end)
run_total_example = run_total world 3 7 path start has_time

-- The run of the document, and how it ends.
returned : (end : Run) × (run_ingestion_sync world 3 7 path start ≡ some end)
returned = run_total world 3 7 path start has_time

waiting : IsWaiting 3 7 db
unfolding get_document get_store
waiting = record {
  doc = doc;
  store = store;
  row = refl;
  alive = refl;
  store_row = refl;
  store_alive = refl;
  owned = refl;
  free = inl refl;
}

run_settles_example :
    (end : Run) × (run_ingestion_sync world 3 7 path start ≡ some end)
    × ((d : Document) × (get_document 7 end.db.documents ≡ some d) × IsSettled d)
    × (end.removed_paths ≡ path ∷ [])
run_settles_example = run_settles world 3 7 path start has_time waiting

-- A document whose earlier run timed out: its operation is known.
abbrev retried : Run
retried = record start {
  db = record db {
    documents = record doc { status = error; op_name = some (codes "operations/1") } ∷ [];
  };
}

abbrev failed_before : Document
failed_before = record doc { status = error; op_name = some (codes "operations/1") }

known_row : get_document 7 retried.db.documents ≡ some failed_before
unfolding get_document
known_row = refl

rerun-uploads_example :
    (end : Run) × (rerun (world ∷ world ∷ []) 3 7 path retried ≡ some end)
    × (end.uploads ≡ 0)
    × ((e : Document) × (get_document 7 end.db.documents ≡ some e)
        × (e.op_name ≡ failed_before.op_name))
rerun-uploads_example =
    rerun-uploads (world ∷ world ∷ []) 3 7 path retried failed_before known_row refl
      (has_time, (has_time, tt))
