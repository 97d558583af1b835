-- ===== src/PatchPlan/Literals.antt =====
-- Quoted values in the SQL of a patch.
use dygo.Base.{
  ℕ, Text, [], ◌∷◌, ◌++◌, Bool, true, false, ◌||◌, any, ◌≡◌, refl, sym, ap, ◌∙◌, Bool-cases,
  or_parts, ltb, inl, inr, ◌==◌, ==-refl,
}
use dygo.PatchPlan.Defs.{
  Unicode, plain, quoted, starts, is_quote, strip, plain_step, sql_tokens, validate_patch_sql,
  check_tokens, words, double, is_tag_char,
}

-- The characters at which a literal or a comment may begin.
abbrev pub is_special : ℕ → Bool
is_special c = is_quote c || (c == b'-' || (c == b'/' || c == b'$'))

strip-ordinary :
    (c : ℕ) (rest : Text) → is_special c ≡ false → strip plain (c ∷ rest) ≡ c ∷ strip plain rest
unfolding strip plain_step
strip-ordinary c rest h =
    let (q, h1) = or_parts (is_quote c) (c == b'-' || (c == b'/' || c == b'$')) h in
    let (d, h2) = or_parts (c == b'-') (c == b'/' || c == b'$') h1 in
    let (s, m) = or_parts (c == b'/') (c == b'$') h2 in rw (q, d, s, m) refl

strip-prefix : (p s : Text) → any is_special p ≡ false → strip plain (p ++ s) ≡ p ++ strip plain s
strip-prefix [] s h = refl
strip-prefix (c ∷ p) s h =
    let (o, more) = or_parts (is_special c) (any is_special p) h in
    strip-ordinary c (p ++ s) o ∙ ap (λ t. c ∷ t) (strip-prefix p s more)

strip-literal :
    (q : ℕ) (v rest : Text)
    → starts q rest ≡ false
    → strip (quoted q) (double q v ++ q ∷ rest) ≡ strip plain rest
unfolding strip double
strip-literal q [] rest h = rw (==-refl q, h) refl
strip-literal q (c ∷ v) rest h = elim (Bool-cases (c == q)) [
  | inl e ↦ rw (e, e) (strip-literal q v rest h)
  | inr e ↦ rw (e, e) (strip-literal q v rest h)
]

strip-opened :
    (q : ℕ) (v rest : Text)
    → is_quote q ≡ true
    → starts q rest ≡ false
    → strip plain (q ∷ (double q v ++ (q ∷ rest))) ≡ strip plain (b' ' ∷ rest)
unfolding strip plain_step
strip-opened q v rest is h = rw is (ap (λ t. b' ' ∷ t) (strip-literal q v rest h))

-- The characters of a prefix that changes how PostgreSQL reads a literal, as in E'' and U&'', or of a name.
abbrev pub is_joined : ℕ → Bool
is_joined c = is_tag_char c || c == b'&' || ltb 127 c

-- A quote after the text would have a prefix.
abbrev pub ends_joined : Text → Bool
ends_joined [] = false
ends_joined (c ∷ []) = is_joined c
ends_joined (c ∷ d ∷ s) = ends_joined (d ∷ s)

-- The check of a patch's SQL takes a value between quotes, with the quotes in it doubled, for a blank, whatever
-- the value is, if the text before it is one in which no literal or comment can begin and does not end in a
-- prefix of the literal (so that it is no escape string), and the text after it does not begin with the
-- quote.
pub validate_patch_sql-literal :
    (u : Unicode) (q : ℕ) (p v rest : Text)
    → any is_special p ≡ false
    → ends_joined p ≡ false
    → is_quote q ≡ true
    → starts q rest ≡ false
    → validate_patch_sql u (p ++ (q ∷ (double q v ++ (q ∷ rest))))
      ≡ validate_patch_sql u (p ++ (b' ' ∷ rest))
unfolding validate_patch_sql sql_tokens
validate_patch_sql-literal u q p v rest h _ is h' =
    ap (λ t. check_tokens (words u [] t))
      (strip-prefix p (q ∷ (double q v ++ (q ∷ rest))) h
        ∙ ap (λ t. p ++ t) (strip-opened q v rest is h')
        ∙ sym (strip-prefix p (b' ' ∷ rest) h))
