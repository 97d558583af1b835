-- ===== src/Names.antt =====
-- internal/entity/fieldtype/names.go and the name checks of internal/shape/shape.go.
use dygo.Base.{
  ℕ, Text, List, [], ◌∷◌, Bool, true, false, ◌&&◌, ◌||◌, leb, ◌==◌, if◌then◌else◌, trim_space,
  split, is_empty, Result, ok, err, reject, ◌>>◌, not,
}

unfoldable pub is_lower : ℕ → Bool
is_lower c = leb b'a' c && leb c b'z'

unfoldable pub is_alnum : ℕ → Bool
unfolding is_lower
is_alnum c = is_lower c || (leb b'0' c && leb c b'9')

-- The states of `^[a-z][a-z0-9]*(?:-[a-z0-9]+)*$`: before a word that follows a dash, and in a word.
mutual
  unfolding is_alnum

  after_dash : Text → Bool
  after_dash [] = false
  after_dash (c ∷ s) = is_alnum c && in_word s

  in_word : Text → Bool
  in_word [] = true
  in_word (c ∷ s) = if c == b'-' then after_dash s else is_alnum c && in_word s

-- IsName
unfoldable pub is_name : Text → Bool
unfolding is_lower after_dash in_word
is_name [] = false
is_name (c ∷ s) = is_lower c && in_word s

pub data NameError : Type 0 where
  is_required bad_target : NameError
  not_kebab_case : Text → NameError

-- ValidateMetadataName
unfoldable pub validate_metadata_name : Text → Result NameError (Unit {0})
unfolding is_name trim_space
validate_metadata_name value = do
  let name = trim_space value
  reject (is_empty name) is_required
  reject (not (is_name name)) (not_kebab_case name)

-- AppRef
pub record AppRef : Type 0 where
  pub app : Text
  pub name : Text

app_ref_of : List Text → Result NameError AppRef
unfolding is_name
app_ref_of (app ∷ name ∷ []) = do
  reject (is_empty app || is_empty name) bad_target
  reject (not (is_name app)) (not_kebab_case app)
  reject (not (is_name name)) (not_kebab_case name)
  ok (record { app = app; name = name })
app_ref_of _ = err bad_target

-- ParseAppRef
unfoldable pub parse_app_ref : Text → Result NameError AppRef
unfolding app_ref_of split trim_space
parse_app_ref value = app_ref_of (split b'/' (trim_space value))
