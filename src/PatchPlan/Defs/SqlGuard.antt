-- ===== src/PatchPlan/Defs/SqlGuard.antt =====
-- What a patch's SQL may not contain: validatePatchSQL, over the statement without its literals and comments.
use dygo.Base.{
  has_prefix, ℕ, zero, suc, ◌+◌, Text, codes, List, [], ◌∷◌, ◌++◌, Bool, false, not, ◌&&◌, ◌||◌,
  leb, ◌==◌, Option, none, some, map, text_eq, contains_text, length, if◌then◌else◌, Result, ok,
  err,
}
use dygo.PatchPlan.Defs.Metadata.{Error, transaction_control, database_level}

-- Where stripSQLLiteralsAndComments is: in a literal or past the first of two quotes in it, in a comment to
-- the end of the line, past the first of the two characters that open or close a comment, in the comment, or
-- before so many characters that are skipped.
pub data Mode : Type 0 where
  plain line opening block closing : Mode
  quoted doubled : ℕ → Mode
  skipping : ℕ → Mode

abbrev pub starts : ℕ → Text → Bool
starts q [] = false
starts q (c ∷ s) = c == q

-- isDollarQuoteTagChar
abbrev pub is_tag_char : ℕ → Bool
is_tag_char c =
    c == b'_'
    || (leb b'a' c && leb c b'z')
    || (leb b'A' c && leb c b'Z')
    || (leb b'0' c && leb c b'9')

-- The tag after a dollar, and what follows it.
tag_and_rest : Text → Text × Text
tag_and_rest [] = ([], [])
tag_and_rest (c ∷ s) =
    let later = tag_and_rest s in if is_tag_char c then (c ∷ later.0, later.1) else ([], c ∷ s)

-- strings.Index
index_of : Text → Text → Option ℕ
index_of pattern [] = if has_prefix pattern [] then some 0 else none
index_of pattern (c ∷ s) =
    let later = index_of pattern s in
    if has_prefix pattern (c ∷ s)
    then some 0
    else elim later [ none ↦ none | some n ↦ some (suc n) ]

-- skipDollarQuotedLiteral: how many characters after the dollar belong to the literal
skip_dollar : Text → Option ℕ
unfolding tag_and_rest index_of
skip_dollar s =
    let (tag, after) = tag_and_rest s in
    let delimiter = b'$' ∷ tag ++ b'$' ∷ [] in
    elim after [
      | [] ↦ none
      | c ∷ body ↦ if not (c == b'$') then none else elim (index_of delimiter body) [
        | none ↦ none
        | some n ↦ some (length tag + 1 + n + length delimiter)
      ]
    ]

abbrev pub is_quote : ℕ → Bool
is_quote c = c == b'\'' || c == b'"'

-- A character outside literals and comments.
unfoldable pub plain_step : ℕ → Text → Text × Mode
unfolding skip_dollar
plain_step c rest =
    if is_quote c
    then (b' ' ∷ [], quoted c)
    else if c == b'-' && starts b'-' rest
    then ([], line)
    else if c == b'/' && starts b'*' rest
    then ([], opening)
    else if c == b'$'
    then elim (skip_dollar rest) [ none ↦ (c ∷ [], plain) | some n ↦ (b' ' ∷ [], skipping n) ]
    else (c ∷ [], plain)

-- A comment that is not closed ends before the last character, which is read as any other.
block_step : ℕ → Text → Text × Mode
block_step c [] = (b' ' ∷ (if is_quote c then b' ' else c) ∷ [], plain)
block_step c (d ∷ rest) = if c == b'*' && d == b'/' then ([], closing) else ([], block)

-- What a character adds to the result, and where the next one stands.
unfoldable pub strip_step : Mode → ℕ → Text → Text × Mode
unfolding plain_step block_step
strip_step plain c rest = plain_step c rest
strip_step line c rest = if c == b'\n' then (b'\n' ∷ c ∷ [], plain) else ([], line)
strip_step opening c rest = ([], block)
strip_step block c rest = block_step c rest
strip_step closing c rest = (b' ' ∷ [], plain)
strip_step (quoted q) c rest =
    if not (c == q) then ([], quoted q) else if starts q rest then ([], doubled q) else ([], plain)
strip_step (doubled q) c rest = ([], quoted q)
strip_step (skipping zero) c rest = plain_step c rest
strip_step (skipping (suc zero)) c rest = ([], plain)
strip_step (skipping (suc (suc n))) c rest = ([], skipping (suc n))

-- stripSQLLiteralsAndComments, from a mode on
unfoldable pub strip : Mode → Text → Text
unfolding strip_step
strip line [] = b'\n' ∷ []
strip block [] = b' ' ∷ []
strip mode [] = []
strip mode (c ∷ rest) = let (out, next) = strip_step mode c rest in out ++ strip next rest

-- unicode.IsLetter and the mapping of strings.ToUpper
pub record Unicode : Type 0 where
  pub is_letter : ℕ → Bool
  pub to_upper : ℕ → ℕ

abbrev pub emit_token : Text → List Text → List Text
emit_token [] tokens = tokens
emit_token (c ∷ s) tokens = (c ∷ s) ∷ tokens

-- The words of a text, after the letters of a word that began.
unfoldable pub words : Unicode → Text → Text → List Text
words u word [] = emit_token word []
words u word (c ∷ s) =
    if u.is_letter c then words u (word ++ u.to_upper c ∷ []) s else emit_token word (words u [] s)

-- sqlValidationTokens
unfoldable pub sql_tokens : Unicode → Text → List Text
unfolding strip words
sql_tokens u statement = words u [] (strip plain statement)

abbrev pub next_token : List Text → Text
next_token [] = []
next_token (t ∷ rest) = t

abbrev pub check_token : Text → Text → Result Error (Unit {0})
unfolding text_eq contains_text
check_token token next =
    if contains_text (map codes ("BEGIN" ∷ "COMMIT" ∷ "ROLLBACK" ∷ "END" ∷ [])) token
    then err transaction_control
    else if text_eq token (codes "START") && text_eq next (codes "TRANSACTION")
    then err transaction_control
    else if text_eq token (codes "CREATE") && text_eq next (codes "DATABASE")
    then err database_level
    else if text_eq token (codes "DROP") && text_eq next (codes "DATABASE")
    then err database_level
    else if text_eq token (codes "ALTER") && text_eq next (codes "SYSTEM")
    then err database_level
    else ok tt

abbrev pub check_tokens : List Text → Result Error (Unit {0})
unfolding text_eq contains_text
check_tokens [] = ok tt
check_tokens (token ∷ rest) =
    let later = check_tokens rest in
    elim (check_token token (next_token rest)) [ err e ↦ err e | ok _ ↦ later ]

-- validatePatchSQL
unfoldable pub validate_patch_sql : Unicode → Text → Result Error (Unit {0})
unfolding sql_tokens text_eq contains_text
validate_patch_sql u statement = check_tokens (sql_tokens u statement)
