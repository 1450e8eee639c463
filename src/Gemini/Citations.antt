-- ===== src/Gemini/Citations.antt =====
-- backend/app/services/gemini_rag.py, `extract_citations_from_response`: the sources of an answer. The
-- chunks of its first candidate come as a list; `none` stands for a candidate without grounding metadata
-- and for an answer without candidates.
use rag_foundation.Common.{ℕ, suc, List, [], ◌∷◌, Option, none, some, String, if◌then◌else◌}
use rag_foundation.Gemini.{Value, nothing, attr, is_truthy}

pub record Citation : Type 0 where
  pub index : ℕ
  pub source_type : String
  pub uri : Value
  pub title : Value
  pub snippet : Value
  pub store : Value

unfoldable pub from_context : ℕ → Value → Citation
from_context i rc = record {
  index = i;
  source_type = "retrieved_context";
  uri = attr "uri" rc;
  title = attr "title" rc;
  snippet = attr "text" rc;
  store = attr "file_search_store" rc;
}

unfoldable pub from_web : ℕ → Value → Citation
from_web i web = record {
  index = i;
  source_type = "web";
  uri = attr "uri" web;
  title = attr "title" web;
  snippet = nothing;
  store = nothing;
}

-- The loop, from the chunk number `i` on.
unfoldable pub citations_from : ℕ → List Value → List Citation
citations_from i [] = []
citations_from i (ch ∷ chunks) =
    let rest = citations_from (suc i) chunks in
    if is_truthy (attr "retrieved_context" ch)
    then from_context i (attr "retrieved_context" ch) ∷ rest
    else if is_truthy (attr "web" ch)
    then from_web i (attr "web" ch) ∷ rest
    else rest

unfoldable pub extract_citations_from_response : Option (List Value) → List Citation
extract_citations_from_response none = []
extract_citations_from_response (some chunks) = citations_from 0 chunks
