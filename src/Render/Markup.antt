-- ===== src/Render/Markup.antt =====
-- No markup comes through EscapeHTML of internal/core/render.go.
use octo_docs_html_fork.Prelude.{
  ℕ, Bool, false, ◌||◌, ◌≡◌, refl, ◌∙◌, List, [], ◌∷◌, ◌++◌, eqb, arith,
}
use octo_docs_html_fork.Render.Script.{escape_byte, escape_html}

-- Whether a byte opens or closes markup or a quoted attribute.
abbrev pub is_markup : ℕ → Bool
is_markup c = eqb c b'<' || eqb c b'>' || eqb c b'"' || eqb c b'\''

abbrev pub has_markup : List ℕ → Bool
has_markup [] = false
has_markup (c ∷ s) = is_markup c || has_markup s

has_markup-append : (s t : List ℕ) → has_markup (s ++ t) ≡ (has_markup s || has_markup t)
has_markup-append [] t = refl
has_markup-append (c ∷ s) t = ground (arith, has_markup-append s t)

has_markup-escape_byte : (c : ℕ) → has_markup (escape_byte c) ≡ false
unfolding escape_byte
has_markup-escape_byte c = ground arith

-- An escaped text has no byte that opens or closes a tag or a quoted attribute.
pub has_markup-escape_html : (s : List ℕ) → has_markup (escape_html s) ≡ false
unfolding escape_html
has_markup-escape_html [] = refl
has_markup-escape_html (c ∷ s) =
    has_markup-append (escape_byte c) (escape_html s)
    ∙ rw (has_markup-escape_byte c, has_markup-escape_html s) refl
