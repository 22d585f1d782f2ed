-- ===== src/Assets/Scan.antt =====
-- scanInto of internal/service/gc.go: the 64-digit content addresses in a page.
use Prim.Native.Char.{Char, code}
use Prim.Native.String.{len}
use octo_docs_html_fork.Prelude.{
  ℕ, zero, suc, String, Bool, false, not, ◌&&◌, ◌||◌, Option, none, some, List, [], ◌∷◌, ◌++◌, leb,
  eqb, contains, if◌then◌else◌,
}

-- [0-9a-f]
unfoldable pub hex_char : Char → Bool
hex_char c = (leb b'0' (code c) && leb (code c) b'9') || (leb b'a' (code c) && leb (code c) b'f')

-- the run of hexadecimal digits at the start of a text
unfoldable pub hex_run : String → String
unfolding hex_char
hex_run String.[] = ""
hex_run (String.◌∷◌ c s) = let rest = hex_run s in if hex_char c then String.◌∷◌ c rest else ""

-- hexRunRe.FindAllString(html, -1): the maximal runs of 64 digits or more. `inside` tells whether the
-- character before is a digit.
unfoldable pub long_runs : Bool → String → List String
unfolding hex_run hex_char
long_runs inside String.[] = []
long_runs inside (String.◌∷◌ c s) =
    let run = hex_run (String.◌∷◌ c s) in
    let rest = long_runs (hex_char c) s in
    if not inside && leb 64 (len run) then run ∷ rest else rest

-- the first `n` characters, if there are as many
unfoldable pub first_chars : ℕ → String → Option String
first_chars zero s = some ""
first_chars (suc n) String.[] = none
first_chars (suc n) (String.◌∷◌ c s) = elim (first_chars n s) [
  | none ↦ none
  | some w ↦ some (String.◌∷◌ c w)
]

unfoldable pub with_window : Option String → List String → List String
with_window none ws = ws
with_window (some w) ws = w ∷ ws

-- run[i : i+64] for each i
unfoldable pub slide : String → List String
unfolding first_chars with_window
slide String.[] = []
slide (String.◌∷◌ c s) = with_window (first_chars 64 (String.◌∷◌ c s)) (slide s)

-- run[i : i+64] for each i that is a multiple of 64; `skip` characters are left to the next one
unfoldable pub aligned : ℕ → String → List String
unfolding first_chars with_window
aligned skip String.[] = []
aligned (suc k) (String.◌∷◌ c s) = aligned k s
aligned zero (String.◌∷◌ c s) = with_window (first_chars 64 (String.◌∷◌ c s)) (aligned 63 s)

-- run[n-64:]
unfoldable pub last_window : String → List String
last_window String.[] = []
last_window (String.◌∷◌ c s) =
    let later = last_window s in
    if eqb (len (String.◌∷◌ c s)) 64 then String.◌∷◌ c s ∷ [] else later

abbrev pub max_slide_run : ℕ
max_slide_run = 4096

unfoldable pub windows_of : String → List String
unfolding slide aligned last_window
windows_of run = if leb (len run) max_slide_run then slide run else aligned 0 run ++ last_window run

-- if _, ok := refs[w]; !ok { refs[w] = struct{}{} }
unfoldable pub add_ref : List String → String → List String
add_ref refs w = if contains w refs then refs else w ∷ refs

unfoldable pub add_refs : List String → List String → List String
unfolding add_ref
add_refs [] refs = refs
add_refs (w ∷ ws) refs = add_refs ws (add_ref refs w)

unfoldable pub scan_runs : List String → List String → List String
unfolding add_refs windows_of
scan_runs [] refs = refs
scan_runs (run ∷ runs) refs = scan_runs runs (add_refs (windows_of run) refs)

unfoldable pub scan_into : String → List String → List String
unfolding scan_runs long_runs
scan_into html refs = scan_runs (long_runs false html) refs
