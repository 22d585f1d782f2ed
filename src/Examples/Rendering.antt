-- ===== src/Examples/Rendering.antt =====
-- Examples of page rendering (internal/core/render.go).
use octo_docs_html_fork.Prelude.{ℕ, false, ◌≡◌, refl, List, [], ◌∷◌}
use octo_docs_html_fork.Render.Script.{starts_fold, neutralize_script_close, escape_html}
use octo_docs_html_fork.Render.Closed.{has_close, has_close-neutralize_script_close}
use octo_docs_html_fork.Render.Markup.{has_markup, has_markup-escape_html}

-- x</ScRipt>
abbrev hostile : List ℕ
hostile = b'x' ∷ b'<' ∷ b'/' ∷ b'S' ∷ b'c' ∷ b'R' ∷ b'i' ∷ b'p' ∷ b't' ∷ b'>' ∷ []

-- It becomes x<\/ScRipt>.
neutralize_test :
    neutralize_script_close hostile
    ≡ b'x' ∷ b'<' ∷ b'\\' ∷ b'/' ∷ b'S' ∷ b'c' ∷ b'R' ∷ b'i' ∷ b'p' ∷ b't' ∷ b'>' ∷ []
unfolding neutralize_script_close starts_fold
neutralize_test = refl

has_close-neutralize_script_close_example : has_close (neutralize_script_close hostile) ≡ false
has_close-neutralize_script_close_example = has_close-neutralize_script_close hostile

has_markup-escape_html_example : has_markup (escape_html hostile) ≡ false
has_markup-escape_html_example = has_markup-escape_html hostile
