-- ===== src/Gemini/Mentions.antt =====
-- backend/app/services/gemini_rag.py, `_extract_uploaded_file_id`: an id is never made up, and where the
-- function reads nothing.
use rag_foundation.Common.{
  ◌≡◌, ap, ◌∙◌, ◌⊎◌, inl, inr, Bool, true, false, String, if◌then◌else◌, Option, none, some, arith,
  Bool-cases, subst,
}
use rag_foundation.Common.Str.{Str, codes, eq_str, strip, is_empty, starts_with}
use rag_foundation.Gemini.{
  Value, Fields, nothing, text, other, dict, object, end, field, get, attr, item, is_dict,
  is_truthy, or_value,
}
use rag_foundation.Gemini.FileId.{
  first_id, text_id, files_id, direct_id, file_attr_id, response_id, info_id, metadata_of,
  metadata_id, top_level_id, extract_uploaded_file_id,
}

-- A text that stands somewhere in a value.
unfoldable mutual
  pub Mentions : Str → Value → Type 0
  Mentions s nothing = ⊥
  Mentions s (text t) = s ≡ t
  Mentions s (other b t) = ⊥
  Mentions s (dict fs) = MentionsIn s fs
  Mentions s (object fs) = MentionsIn s fs

  pub MentionsIn : Str → Fields → Type 0
  MentionsIn s end = ⊥
  MentionsIn s (field k v fs) = Mentions s v ⊎ MentionsIn s fs

module _ (s : Str) where
  get-Mentions : (key : String) (fs : Fields) → Mentions s (get key fs) → MentionsIn s fs
  unfolding get MentionsIn Mentions
  get-Mentions key end h = h
  get-Mentions key (field k v fs) h = elim (Bool-cases (eq_str k (codes key))) [
    | inl e ↦ inl (subst (λ b. Mentions s (if b then v else get key fs)) e h)
    | inr e ↦ inr (get-Mentions key fs (subst (λ b. Mentions s (if b then v else get key fs)) e h))
  ]

  attr-Mentions : (key : String) (v : Value) → Mentions s (attr key v) → Mentions s v
  unfolding attr Mentions
  attr-Mentions key (object fs) h = get-Mentions key fs h
  attr-Mentions key (dict fs) h = elim h [ ]
  attr-Mentions key (text t) h = elim h [ ]
  attr-Mentions key (other b t) h = elim h [ ]
  attr-Mentions key nothing h = elim h [ ]

  item-Mentions : (key : String) (v : Value) → Mentions s (item key v) → Mentions s v
  unfolding item Mentions
  item-Mentions key (dict fs) h = get-Mentions key fs h
  item-Mentions key (object fs) h = elim h [ ]
  item-Mentions key (text t) h = elim h [ ]
  item-Mentions key (other b t) h = elim h [ ]
  item-Mentions key nothing h = elim h [ ]

  or_value-Mentions :
      {P : Type 0} (a b : Value)
      → (Mentions s a → P)
      → (Mentions s b → P)
      → Mentions s (or_value a b)
      → P
  unfolding or_value
  or_value-Mentions a b f g h = elim (Bool-cases (is_truthy a)) [
    | inl e ↦ f (subst (λ c. Mentions s (if c then a else b)) e h)
    | inr e ↦ g (subst (λ c. Mentions s (if c then a else b)) e h)
  ]

  -- A step that finds the text finds it in the value.
  abbrev Sound : Option Str → Value → Type 0
  Sound o v = o ≡ some s → Mentions s v

  first_id-Sound : (a b : Option Str) (v : Value) → Sound a v → Sound b v → Sound (first_id a b) v
  unfolding first_id
  first_id-Sound none b v f g = g
  first_id-Sound (some t) b v f g = f

  if-Sound : (c : Bool) (a : Option Str) (v : Value) → Sound a v → Sound (if c then a else none) v
  if-Sound true a v f = f
  if-Sound false a v f = λ e. absurd cc

  if_text : (c : Bool) (t : Str) → (if c then some t else none) ≡ some s → s ≡ t
  if_text true t e = cc
  if_text false t e = absurd cc

  text_id-Sound : (v : Value) → Sound (text_id v) v
  unfolding text_id Mentions
  text_id-Sound (text t) e = blank (is_empty (strip t)) e
    where
      blank : (c : Bool) → (if c then none else some t) ≡ some s → s ≡ t
      blank true e = absurd cc
      blank false e = cc
  text_id-Sound nothing e = absurd cc
  text_id-Sound (other b t) e = absurd cc
  text_id-Sound (dict fs) e = absurd cc
  text_id-Sound (object fs) e = absurd cc

  files_id-Sound : (v : Value) → Sound (files_id v) v
  unfolding files_id Mentions
  files_id-Sound (text t) e = if_text (starts_with t (codes "files/")) t e
  files_id-Sound nothing e = absurd cc
  files_id-Sound (other b t) e = absurd cc
  files_id-Sound (dict fs) e = absurd cc
  files_id-Sound (object fs) e = absurd cc

  direct_id-Sound : (v : Value) → Sound (direct_id v) v
  unfolding direct_id Mentions
  direct_id-Sound (text t) e = if_text (starts_with (strip t) (codes "files/")) t e
  direct_id-Sound nothing e = absurd cc
  direct_id-Sound (other b t) e = absurd cc
  direct_id-Sound (dict fs) e = absurd cc
  direct_id-Sound (object fs) e = absurd cc

  -- What is found in one value is found in another that holds it.
  carry : (o : Option Str) (a v : Value) → (Mentions s a → Mentions s v) → Sound o a → Sound o v
  carry o a v f g e = f (g e)

  file_attr_id-Sound : (v : Value) → Sound (file_attr_id v) v
  unfolding file_attr_id
  file_attr_id-Sound v =
      let file = attr "file" v in
      if-Sound (is_truthy file) (text_id (or_value (attr "name" file) (attr "id" file))) v (
        carry _ (or_value (attr "name" file) (attr "id" file)) v
          (or_value-Mentions (attr "name" file) (attr "id" file)
            (λ h. attr-Mentions "file" v (attr-Mentions "name" file h))
            (λ h. attr-Mentions "file" v (attr-Mentions "id" file h)))
          (text_id-Sound (or_value (attr "name" file) (attr "id" file))))

  response_id-Sound : (v : Value) → Sound (response_id v) v
  unfolding response_id
  response_id-Sound v =
      if-Sound (is_truthy v) (first_id (file_attr_id v) (files_id (attr "name" v))) v (
        first_id-Sound (file_attr_id v) (files_id (attr "name" v)) v (file_attr_id-Sound v)
          (carry _ (attr "name" v) v (attr-Mentions "name" v) (files_id-Sound (attr "name" v))))

  info_id-Sound : (v : Value) → Sound (info_id v) v
  unfolding info_id
  info_id-Sound v =
      let two = or_value (item "name" v) (item "id" v) in
      let three = or_value two (item "file_id" v) in
      if-Sound (is_dict v) (text_id (or_value three (item "fileId" v))) v (
        carry _ (or_value three (item "fileId" v)) v
          (or_value-Mentions three (item "fileId" v)
            (or_value-Mentions two (item "file_id" v)
              (or_value-Mentions (item "name" v) (item "id" v) (item-Mentions "name" v)
                (item-Mentions "id" v))
              (item-Mentions "file_id" v))
            (item-Mentions "fileId" v))
          (text_id-Sound (or_value three (item "fileId" v))))

  metadata_id-Sound : (v : Value) → Sound (metadata_id v) v
  unfolding metadata_id
  metadata_id-Sound v =
      let two = or_value (item "file" v) (item "resource" v) in
      let info = or_value two (item "fileInfo" v) in
      let name = or_value (item "resourceName" v) (item "resource_name" v) in
      if-Sound (is_dict v) (first_id (info_id info) (files_id name)) v (
        first_id-Sound (info_id info) (files_id name) v
          (carry _ info v
            (or_value-Mentions two (item "fileInfo" v)
              (or_value-Mentions (item "file" v) (item "resource" v) (item-Mentions "file" v)
                (item-Mentions "resource" v))
              (item-Mentions "fileInfo" v))
            (info_id-Sound info))
          (carry _ name v
            (or_value-Mentions (item "resourceName" v) (item "resource_name" v)
              (item-Mentions "resourceName" v) (item-Mentions "resource_name" v))
            (files_id-Sound name)))

  metadata_of-Mentions : (v : Value) → Mentions s (metadata_of v) → Mentions s v
  unfolding metadata_of
  metadata_of-Mentions v h = elim (Bool-cases (is_dict v)) [
    | inl e ↦
        item-Mentions "metadata" v
          (subst (λ c. Mentions s (if c then item "metadata" v else attr "metadata" v)) e h)
    | inr e ↦
        attr-Mentions "metadata" v
          (subst (λ c. Mentions s (if c then item "metadata" v else attr "metadata" v)) e h)
  ]

  top_level-Mentions :
      (v : Value) (c : Bool)
      → Mentions s (if c then or_value (item "file" v) (item "file" (item "result" v)) else nothing)
      → Mentions s v
  unfolding Mentions
  top_level-Mentions v true h =
      or_value-Mentions (item "file" v) (item "file" (item "result" v)) (item-Mentions "file" v)
        (λ k. item-Mentions "result" v (item-Mentions "file" (item "result" v) k)) h
  top_level-Mentions v false h = elim h [ ]

  top_level_id-Sound : (v : Value) → Sound (top_level_id v) v
  unfolding top_level_id
  top_level_id-Sound v =
      let found =
        if is_dict (item "result" v)
        then or_value (item "file" v) (item "file" (item "result" v))
        else nothing in
      if-Sound (is_dict v) (info_id found) v
        (carry _ found v (top_level-Mentions v (is_dict (item "result" v))) (info_id-Sound found))

  extract-Sound : (op : Value) → Sound (extract_uploaded_file_id op) op
  unfolding extract_uploaded_file_id
  extract-Sound op =
      let result = attr "result" op in
      first_id-Sound (direct_id (attr "name" op)) _ op
        (carry _ (attr "name" op) op (attr-Mentions "name" op) (direct_id-Sound (attr "name" op)))
        (first_id-Sound (file_attr_id op) _ op (file_attr_id-Sound op) (
          first_id-Sound (if is_truthy result then file_attr_id result else none) _ op
            (if-Sound (is_truthy result) (file_attr_id result) op
              (carry _ result op (attr-Mentions "result" op) (file_attr_id-Sound result)))
            (first_id-Sound (response_id (attr "response" op)) _ op
              (carry _ (attr "response" op) op (attr-Mentions "response" op)
                (response_id-Sound (attr "response" op)))
              (first_id-Sound (metadata_id (metadata_of op)) (top_level_id op) op
                (carry _ (metadata_of op) op (metadata_of-Mentions op)
                  (metadata_id-Sound (metadata_of op)))
                (top_level_id-Sound op)))))

bare_dict :
    (fs : Fields)
    → is_dict (get "metadata" fs) ≡ false
    → is_dict (get "result" fs) ≡ false
    → extract_uploaded_file_id (dict fs) ≡ none
unfolding extract_uploaded_file_id first_id direct_id attr file_attr_id is_truthy response_id
    metadata_id metadata_of item is_dict top_level_id info_id
bare_dict fs metadata result = ground (arith, metadata, result)

-- The id of an uploaded file is a text that stands in the answer of the upload. But in a dict without a
-- dict under `metadata` or `result`, none is found: its `file` is not looked at.
pub extract_uploaded_file_id-Mentions :
    (op : Value)
    → ((s : Str) → extract_uploaded_file_id op ≡ some s → Mentions s op)
      × ((fs : Fields)
          → op ≡ dict fs
          → is_dict (get "metadata" fs) ≡ false
          → is_dict (get "result" fs) ≡ false
          → extract_uploaded_file_id op ≡ none)
extract_uploaded_file_id-Mentions op = (
  λ s. extract-Sound s op,
  λ fs same metadata result. ap extract_uploaded_file_id same ∙ bare_dict fs metadata result,
)
