-- ===== src/Naming/Formats.antt =====
-- Formats as sequences of characters and tokens.
use dygo.Base.{
  ℕ, suc, Text, List, [], ◌∷◌, ◌++◌, false, any, some, length, All, ◌≡◌, refl, ap, ◌∙◌, ◌==◌,
  or_parts, Result, ok, ◌>>=◌,
}
use dygo.Naming.Defs.{Error, token_and_rest, render_from, render_format}

pub data Piece : Type 0 where
  char : ℕ → Piece
  token : Text → Piece

abbrev pub print : List Piece → Text
print [] = []
print (char c ∷ ps) = c ∷ print ps
print (token t ∷ ps) = b'{' ∷ (t ++ (b'}' ∷ print ps))

-- A character is no brace, and a token has no closing brace.
abbrev pub IsPiece : Piece → Type 0
IsPiece (char c) = ((c == b'{') ≡ false) × ((c == b'}') ≡ false)
IsPiece (token t) = any (λ c. c == b'}') t ≡ false

-- The values of the tokens in their places; the first that cannot be resolved is the error.
abbrev pub fill : (Text → Result Error Text) → List Piece → Result Error Text
fill resolve [] = ok []
fill resolve (char c ∷ ps) = fill resolve ps >>= λ more. ok (c ∷ more)
fill resolve (token t ∷ ps) = resolve t >>= λ value. fill resolve ps >>= λ more. ok (value ++ more)

token_and_rest-token :
    (t s : Text) → any (λ c. c == b'}') t ≡ false → token_and_rest (t ++ (b'}' ∷ s)) ≡ some (t, s)
unfolding token_and_rest
token_and_rest-token [] s h = refl
token_and_rest-token (c ∷ t) s h =
    let (e, more) = or_parts (c == b'}') (any (λ c. c == b'}') t) h in
    rw (e, token_and_rest-token t s more) refl

render_from-token :
    (resolve : Text → Result Error Text) (t s : Text)
    → render_from resolve (suc (length t)) (t ++ (b'}' ∷ s)) ≡ render_from resolve 0 s
unfolding render_from
render_from-token resolve [] s = refl
render_from-token resolve (c ∷ t) s = render_from-token resolve t s

-- RenderFormat of a format that is written out from characters and tokens puts the values of the tokens in
-- their places, or returns the error of the first token that cannot be resolved.
pub render_format-print :
    (resolve : Text → Result Error Text) (ps : List Piece)
    → All IsPiece ps
    → render_format resolve (print ps) ≡ fill resolve ps
unfolding render_from
render_format-print resolve [] h = refl
render_format-print resolve (char c ∷ ps) ((opens, closes), h) =
    rw (opens, closes) (ap (λ r. r >>= λ more. ok (c ∷ more)) (render_format-print resolve ps h))
render_format-print resolve (token t ∷ ps) (h, hs) =
    let ih = render_from-token resolve t (print ps) ∙ render_format-print resolve ps hs in
    rw (token_and_rest-token t (print ps) h)
      (ap (λ r. resolve t >>= λ value. r >>= λ more. ok (value ++ more)) ih)
