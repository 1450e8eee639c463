-- ===== src/Models.antt =====
-- backend/app/models.py: the tables that the modelled parts read and write, as records, and the
-- database as the lists of their rows. Times are ticks of one clock; money is in micro-dollars.
pub mod Rows
use rag_foundation.Common.{
  ℕ, ◌≡◌, Bool, true, false, List, [], ◌∷◌, Option, none, some, ◌==◌, if◌then◌else◌, keep,
}
use rag_foundation.Common.Str.{Str}

pub data DocumentStatus : Type 0 where
  pending running done error : DocumentStatus

-- `a == b` on statuses.
unfoldable pub is_status : DocumentStatus → DocumentStatus → Bool
is_status pending pending = true
is_status running running = true
is_status done done = true
is_status error error = true
is_status _ _ = false

pub record User : Type 0 where
  pub id : ℕ
  pub email : Str
  pub hashed_password : Str
  pub is_active : Bool
  pub email_verified : Bool
  pub is_admin : Bool
  pub admin_notes : Option Str

pub record Store : Type 0 where
  pub id : ℕ
  pub user_id : ℕ
  pub display_name : Str
  pub fs_name : Str
  pub deleted_at : Option ℕ
  pub deleted_by : Option ℕ
  pub created_at : ℕ

pub record Document : Type 0 where
  pub id : ℕ
  pub store_id : ℕ
  pub filename : Str
  pub display_name : Option Str
  pub size_bytes : ℕ
  pub status : DocumentStatus
  pub status_updated_at : ℕ
  pub op_name : Option Str
  pub gcs_uri : Option Str
  pub gemini_file_id : Option Str
  pub last_error : Option Str
  pub deleted_at : Option ℕ
  pub deleted_by : Option ℕ
  pub created_at : ℕ

pub record QueryLog : Type 0 where
  pub user_id : ℕ
  pub store_id : Option ℕ
  pub prompt_tokens : Option ℕ
  pub completion_tokens : Option ℕ
  pub cost_usd : ℕ
  pub model : Option Str
  pub created_at : ℕ

pub record Budget : Type 0 where
  pub user_id : ℕ
  pub monthly_limit_usd : ℕ

pub record Database : Type 0 where
  pub users : List User
  pub stores : List Store
  pub documents : List Document
  pub query_logs : List QueryLog
  pub budgets : List Budget

-- `deleted_at is None`
abbrev pub is_none : Option ℕ → Bool
is_none none = true
is_none (some _) = false

-- SoftDeleteMixin, on each of its two tables; `ts` is the time of the call.
unfoldable pub soft_delete_store : ℕ → Option ℕ → Store → Store
soft_delete_store ts user s = record s { deleted_at = some ts; deleted_by = user }

unfoldable pub soft_delete_document : ℕ → Option ℕ → Document → Document
soft_delete_document ts user d = record d { deleted_at = some ts; deleted_by = user }

unfoldable pub restore_store : Store → Store
restore_store s = record s { deleted_at = none; deleted_by = none }

unfoldable pub restore_document : Document → Document
restore_document d = record d { deleted_at = none; deleted_by = none }

-- `Document.set_status` and `Document.touch_status`.
unfoldable pub set_status : ℕ → DocumentStatus → Document → Document
set_status now st d = record d { status = st; status_updated_at = now }

unfoldable pub touch_status : ℕ → Document → Document
touch_status now d = record d { status_updated_at = now }

-- `db.get(Document, id)` and `db.get(Store, id)`: the ids are primary keys.
unfoldable pub get_document : ℕ → List Document → Option Document
get_document i [] = none
get_document i (d ∷ ds) = if d.id == i then some d else get_document i ds

unfoldable pub get_store : ℕ → List Store → Option Store
get_store i [] = none
get_store i (s ∷ ss) = if s.id == i then some s else get_store i ss

unfoldable pub get_user : ℕ → List User → Option User
get_user i [] = none
get_user i (u ∷ us) = if u.id == i then some u else get_user i us

-- The changed row of a document written back.
unfoldable pub put_document : Document → List Document → List Document
put_document d [] = []
put_document d (e ∷ ds) = if e.id == d.id then d ∷ ds else e ∷ put_document d ds

unfoldable pub put_store : Store → List Store → List Store
put_store s [] = []
put_store s (t ∷ ss) = if t.id == s.id then s ∷ ss else t ∷ put_store s ss

-- `UPDATE documents SET … WHERE test`
unfoldable pub update_documents :
    (Document → Bool) → (Document → Document) → List Document → List Document
update_documents test f [] = []
update_documents test f (d ∷ ds) = (if test d then f d else d) ∷ update_documents test f ds

-- `UPDATE documents SET … WHERE …` on one database.
unfoldable pub write_document : Document → Database → Database
write_document d db = record db { documents = put_document d db.documents }

unfoldable pub update_stores : (Store → Bool) → (Store → Store) → List Store → List Store
update_stores test f [] = []
update_stores test f (s ∷ ss) = (if test s then f s else s) ∷ update_stores test f ss
