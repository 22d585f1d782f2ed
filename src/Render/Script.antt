-- ===== src/Render/Script.antt =====
-- neutralizeScriptClose and EscapeHTML of internal/core/render.go, on the bytes of a text. The tag has
-- ASCII letters only, and on eight bytes strings.EqualFold agrees with the comparison of bytes without
-- regard to ASCII case: a character beyond ASCII that folds to one of them has more than one byte, and
-- then the texts differ in their number of characters.
use octo_docs_html_fork.Prelude.{
  ℕ, zero, suc, ◌+◌, Bool, true, false, ◌&&◌, List, [], ◌∷◌, ◌++◌, length, ltb, leb, eqb,
  if◌then◌else◌,
}

-- a byte in lower case
abbrev pub lower : ℕ → ℕ
lower c = if leb b'A' c && leb c b'Z' then c + 32 else c

-- Whether a text begins with a prefix, without regard to case.
unfoldable pub starts_fold : List ℕ → List ℕ → Bool
starts_fold [] s = true
starts_fold (p ∷ ps) [] = false
starts_fold (p ∷ ps) (c ∷ s) = eqb (lower p) (lower c) && starts_fold ps s

-- /script
abbrev pub tag_name : List ℕ
tag_name = b'/' ∷ b's' ∷ b'c' ∷ b'r' ∷ b'i' ∷ b'p' ∷ b't' ∷ []

-- </script
abbrev pub close_tag : List ℕ
close_tag = b'<' ∷ tag_name

-- The loop of neutralizeScriptClose. The bytes of a match behind its first are copied as they are:
-- `skip` of them are left.
unfoldable pub neutralize_from : ℕ → List ℕ → List ℕ
neutralize_from skip [] = []
neutralize_from (suc k) (c ∷ s) = c ∷ neutralize_from k s
neutralize_from zero (c ∷ s) =
    let matched = b'<' ∷ b'\\' ∷ neutralize_from 7 s in
    let other = c ∷ neutralize_from zero s in
    if starts_fold close_tag (c ∷ s) then matched else other

unfoldable pub neutralize_script_close : List ℕ → List ℕ
unfolding neutralize_from
neutralize_script_close s = if ltb (length s) (length close_tag) then s else neutralize_from 0 s

-- the replacement of one byte
unfoldable pub escape_byte : ℕ → List ℕ
escape_byte c =
    if eqb c b'&'
    then b'&' ∷ b'a' ∷ b'm' ∷ b'p' ∷ b';' ∷ []
    else if eqb c b'<'
    then b'&' ∷ b'l' ∷ b't' ∷ b';' ∷ []
    else if eqb c b'>'
    then b'&' ∷ b'g' ∷ b't' ∷ b';' ∷ []
    else if eqb c b'"'
    then b'&' ∷ b'q' ∷ b'u' ∷ b'o' ∷ b't' ∷ b';' ∷ []
    else if eqb c b'\''
    then b'&' ∷ b'#' ∷ b'3' ∷ b'9' ∷ b';' ∷ []
    else c ∷ []

unfoldable pub escape_html : List ℕ → List ℕ
unfolding escape_byte
escape_html [] = []
escape_html (c ∷ s) = escape_byte c ++ escape_html s
