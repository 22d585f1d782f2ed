-- ===== src/Assets/Found.antt =====
-- scanInto of internal/service/gc.go misses no address.
use Prim.Native.Char.{Char}
use Prim.Native.String.{len}
use octo_docs_html_fork.Prelude.{
  String, Bool, true, false, not, ◌&&◌, ◌||◌, ◌≡◌, refl, sym, ap, ◌∙◌, some, List, [], ◌∷◌, ◌++◌,
  ◌==◌, leb, arith, eq_iff, All, contains, Bool-cases, ◌⊎◌, inl, inr, if_split, if◌then◌else◌,
}
use octo_docs_html_fork.Assets.Scan.{
  hex_char, hex_run, long_runs, first_chars, slide, windows_of, max_slide_run, add_ref, add_refs,
  scan_runs, scan_into,
}
use octo_docs_html_fork.Assets.Windows.{is_hex, Occurs, first_chars-hex_run, slide-len, slide-here}

-- The windows of the runs of a page.
abbrev pub windows : List String → List String
windows [] = []
windows (run ∷ runs) = windows_of run ++ windows runs

pub contains-append :
    (k : String) (xs ys : List String) → contains k (xs ++ ys) ≡ (contains k xs || contains k ys)
contains-append k [] ys = refl
contains-append k (x ∷ xs) ys = ground (arith, contains-append k xs ys)

-- A run of a length that is slid over in full.
abbrev pub IsShort : String → Type 0
IsShort run = leb (len run) max_slide_run ≡ true

-- Where the run is emitted, its windows are those of the page.
emitted :
    (inside : Bool) (run w : String) (rest : List String)
    → inside ≡ false
    → All IsShort (if not inside && leb 64 (len run) then run ∷ rest else rest)
    → contains w (slide run) ≡ true
    → contains w (windows (if not inside && leb 64 (len run) then run ∷ rest else rest)) ≡ true
unfolding windows_of
emitted inside run w rest out short there =
    let long : leb 64 (len run) ≡ true = ground (arith, slide-len run w there) in
    if_split (λ runs. All IsShort runs → contains w (windows runs) ≡ true)
      (not inside && leb 64 (len run))
      (λ yes ok.
        contains-append w (windows_of run) (windows rest) ∙ rw ok.0 (ground (arith, there)))
      (λ no ok. absurd (ground (arith, no, out, long))) short

skipped :
    (b : Bool) (run w : String) (rest : List String)
    → contains w (windows rest) ≡ true
    → contains w (windows (if b then run ∷ rest else rest)) ≡ true
skipped true run w rest h = contains-append w (windows_of run) (windows rest) ∙ ground (arith, h)
skipped false run w rest h = h

IsShort-rest :
    (b : Bool) (run : String) (rest : List String)
    → All IsShort (if b then run ∷ rest else rest)
    → All IsShort rest
IsShort-rest true run rest short = short.1
IsShort-rest false run rest short = short

hex_run-digit :
    (c : Char) (s : String)
    → hex_char c ≡ true
    → hex_run (String.◌∷◌ c s) ≡ String.◌∷◌ c (hex_run s)
unfolding hex_run
hex_run-digit c s digit = rw digit refl

-- The first character of a window of digits is a digit.
digit_here :
    (c : Char) (s w : String)
    → is_hex w ≡ true
    → first_chars 64 (String.◌∷◌ c s) ≡ some w
    → hex_char c ≡ true
unfolding hex_run first_chars
digit_here c s w hex here = elim (Bool-cases (hex_char c)) [
  | inl digit ↦ digit
  | inr other ↦
      let empty : hex_run (String.◌∷◌ c s) ≡ "" = rw other refl in
      let found : first_chars 64 "" ≡ some w =
        ap (first_chars 64) (sym empty) ∙ first_chars-hex_run 64 (String.◌∷◌ c s) w here hex in
      absurd (cc)
]

-- A window of digits stands among those of the page's runs, or in the run that the page continues.
found :
    (inside : Bool) (s w : String)
    → is_hex w ≡ true
    → All IsShort (long_runs inside s)
    → Occurs w s
    → (contains w (windows (long_runs inside s)) ≡ true)
      ⊎ ((inside ≡ true) × (contains w (slide (hex_run s)) ≡ true))
unfolding long_runs
found inside String.[] w hex short o = absurd o
found inside (String.◌∷◌ c s) w hex short o =
    let run = hex_run (String.◌∷◌ c s) in
    let rest = long_runs (hex_char c) s in
    let emits = not inside && leb 64 (len run) in
    let in_run : contains w (slide run) ≡ true
        → (contains w (windows (if emits then run ∷ rest else rest)) ≡ true)
          ⊎ ((inside ≡ true) × (contains w (slide run) ≡ true)) =
      λ there. elim (Bool-cases inside) [
        | inl within ↦ inr (within, there)
        | inr out ↦ inl (emitted inside run w rest out short there)
      ] in
    elim o [
      | inl here ↦
          let digit = digit_here c s w hex here in
          let same = hex_run-digit c s digit in
          let first =
            ap (first_chars 64) (sym same) ∙ first_chars-hex_run 64 (String.◌∷◌ c s) w here hex in
          in_run (ap (λ r. contains w (slide r)) same ∙ slide-here c (hex_run s) w (inl first))
      | inr later ↦ elim (found (hex_char c) s w hex (IsShort-rest emits run rest short) later) [
        | inl there ↦ inl (skipped emits run w rest there)
        | inr (digit, there) ↦ in_run (
            ap (λ r. contains w (slide r)) (hex_run-digit c s digit)
            ∙ slide-here c (hex_run s) w (inr there))
      ]
    ]

contains-add_ref :
    (refs : List String) (v w : String) → contains w (add_ref refs v) ≡ (v == w || contains w refs)
unfolding add_ref
contains-add_ref refs v w = ground (arith, eq_iff v w)

contains-add_refs :
    (ws refs : List String) (w : String)
    → contains w (add_refs ws refs) ≡ (contains w ws || contains w refs)
unfolding add_refs
contains-add_refs [] refs w = refl
contains-add_refs (v ∷ ws) refs w =
    ground (arith, contains-add_refs ws (add_ref refs v) w, contains-add_ref refs v w)

contains-scan_runs :
    (runs refs : List String) (w : String)
    → contains w (scan_runs runs refs) ≡ (contains w (windows runs) || contains w refs)
unfolding scan_runs
contains-scan_runs [] refs w = refl
contains-scan_runs (run ∷ runs) refs w = ground (
  arith,
  contains-scan_runs runs (add_refs (windows_of run) refs) w,
  contains-add_refs (windows_of run) refs w,
  contains-append w (windows_of run) (windows runs),
)

-- A scan finds what it would find in the page alone, and keeps what was there.
pub contains-scan_split :
    (html : String) (refs : List String) (w : String)
    → contains w (scan_into html refs) ≡ (contains w (scan_into html []) || contains w refs)
unfolding scan_into
contains-scan_split html refs w = ground (
  arith,
  contains-scan_runs (long_runs false html) refs w,
  contains-scan_runs (long_runs false html) [] w,
)

-- What was found stays.
pub scan_into-kept :
    (html : String) (refs : List String) (w : String)
    → contains w refs ≡ true
    → contains w (scan_into html refs) ≡ true
unfolding scan_into
scan_into-kept html refs w h = ground (arith, contains-scan_runs (long_runs false html) refs w, h)

-- An address of 64 digits that stands in a page all of whose runs of digits are of at most 4096
-- is among the references after a scan.
pub contains-scan_into :
    (html w : String) (refs : List String)
    → is_hex w ≡ true
    → All IsShort (long_runs false html)
    → Occurs w html
    → contains w (scan_into html refs) ≡ true
unfolding scan_into
contains-scan_into html w refs hex short o = elim (found false html w hex short o) [
  | inl there ↦ ground (arith, contains-scan_runs (long_runs false html) refs w, there)
  | inr never ↦ absurd (let impossible = never.0 in cc)
]
