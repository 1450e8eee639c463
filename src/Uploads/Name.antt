-- ===== src/Uploads/Name.antt =====
-- backend/app/routes/uploads.py, `sanitize_name`, and the path of the temporary file of an upload.
use rag_foundation.Common.{
  ℕ, Bool, true, false, ◌&&◌, ◌||◌, [], ◌∷◌, ◌++◌, ◌==◌, leb, if◌then◌else◌, map, take,
}
use rag_foundation.Common.Str.{Str, codes, strip, is_empty}

-- `os.path.basename`: what follows the last slash; `best` is what follows the last slash so far.
unfoldable pub after_slash : Str → Str → Str
after_slash best [] = best
after_slash best (c ∷ s) = after_slash (if c == b'/' then s else best) s

unfoldable pub basename : Str → Str
basename s = after_slash s s

-- `[A-Za-z0-9._-]`
unfoldable pub is_name_char : ℕ → Bool
is_name_char c =
    (leb b'A' c && leb c b'Z')
    || (leb b'a' c && leb c b'z')
    || (leb b'0' c && leb c b'9')
    || c == b'.'
    || c == b'_'
    || c == b'-'

-- `SAFE_NAME_RE.sub("_", name)`: each run of other characters becomes one underscore. The flag says
-- that a run goes on.
unfoldable pub sub_unsafe : Bool → Str → Str
sub_unsafe inside [] = []
sub_unsafe inside (c ∷ s) =
    let kept = sub_unsafe false s in
    let dropped = sub_unsafe true s in
    if is_name_char c then c ∷ kept else if inside then dropped else b'_' ∷ dropped

-- `name.replace(" ", "_")`
unfoldable pub underscore : ℕ → ℕ
underscore c = if c == 32 then b'_' else c

-- `name.lstrip(".")`
unfoldable pub lstrip_dots : Str → Str
lstrip_dots [] = []
lstrip_dots (c ∷ s) = if c == b'.' then lstrip_dots s else c ∷ s

abbrev pub or_file : Str → Str
or_file s = if is_empty s then codes "file" else s

unfoldable pub sanitize_name : Str → ℕ → Str
sanitize_name name max_len =
    or_file (take max_len (lstrip_dots (sub_unsafe false (map underscore (strip (basename name))))))

-- `os.path.join`, where the second part is not absolute.
unfoldable pub ends_with_slash : Str → Bool
ends_with_slash [] = false
ends_with_slash (c ∷ []) = c == b'/'
ends_with_slash (c ∷ d ∷ s) = ends_with_slash (d ∷ s)

unfoldable pub join_path : Str → Str → Str
join_path [] name = name
join_path (c ∷ dir) name =
    if ends_with_slash (c ∷ dir) then (c ∷ dir) ++ name else (c ∷ dir) ++ b'/' ∷ name

-- `unique` is the random text `uuid.uuid4().hex[:8]`.
unfoldable pub tmp_path : Str → Str → Str → Str
tmp_path tmp_dir unique safe_name = join_path tmp_dir (unique ++ b'_' ∷ safe_name)
