-- ===== src/Gemini/FileId.antt =====
-- backend/app/services/gemini_rag.py, `_extract_uploaded_file_id`: the id of an uploaded file, where the
-- answer of an upload has one. No step raises on the values of this model.
use rag_foundation.Common.{if◌then◌else◌, Option, none, some}
use rag_foundation.Common.Str.{Str, codes, strip, is_empty, starts_with}
use rag_foundation.Gemini.{Value, nothing, text, attr, item, is_dict, is_truthy, or_value}

-- The first step that finds an id.
unfoldable pub first_id : Option Str → Option Str → Option Str
first_id none next = next
first_id (some s) next = some s

-- `isinstance(name, str) and name.strip()`
unfoldable pub text_id : Value → Option Str
text_id (text s) = if is_empty (strip s) then none else some s
text_id _ = none

-- `isinstance(name, str) and name.startswith("files/")`
unfoldable pub files_id : Value → Option Str
files_id (text s) = if starts_with s (codes "files/") then some s else none
files_id _ = none

-- The same test on the name without the white space around it.
unfoldable pub direct_id : Value → Option Str
direct_id (text s) = if starts_with (strip s) (codes "files/") then some s else none
direct_id _ = none

-- The id of the attribute `file` of a value.
unfoldable pub file_attr_id : Value → Option Str
file_attr_id v =
    let file = attr "file" v in
    if is_truthy file then text_id (or_value (attr "name" file) (attr "id" file)) else none

unfoldable pub response_id : Value → Option Str
response_id response =
    if is_truthy response
    then first_id (file_attr_id response) (files_id (attr "name" response))
    else none

-- `name`, `id`, `file_id` or `fileId` of a dict.
unfoldable pub info_id : Value → Option Str
info_id info =
    if is_dict info
    then text_id (
        or_value (or_value (or_value (item "name" info) (item "id" info)) (item "file_id" info))
          (item "fileId" info))
    else none

unfoldable pub metadata_of : Value → Value
metadata_of op = if is_dict op then item "metadata" op else attr "metadata" op

unfoldable pub metadata_id : Value → Option Str
metadata_id metadata =
    if is_dict metadata
    then first_id
        (info_id (
          or_value (or_value (item "file" metadata) (item "resource" metadata))
            (item "fileInfo" metadata)))
        (files_id (or_value (item "resourceName" metadata) (item "resource_name" metadata)))
    else none

-- The conditional binds more loosely than `or`: without a dict under `result` nothing is read.
unfoldable pub top_level_id : Value → Option Str
top_level_id op =
    let result = item "result" op in
    if is_dict op
    then info_id
        (if is_dict result then or_value (item "file" op) (item "file" result) else nothing)
    else none

unfoldable pub extract_uploaded_file_id : Value → Option Str
extract_uploaded_file_id op = first_id (direct_id (attr "name" op)) (
    first_id (file_attr_id op) (
      first_id (if is_truthy (attr "result" op) then file_attr_id (attr "result" op) else none) (
        first_id (response_id (attr "response" op))
          (first_id (metadata_id (metadata_of op)) (top_level_id op)))))
