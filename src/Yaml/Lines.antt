-- ===== src/Yaml/Lines.antt =====
-- `_prepare` of src/kil/v3b2_closed_yaml.py: the lines of a text, each with its indentation. A text holds
-- Unicode scalar values only, so its encoding never fails. A ClosedYAMLError is a ValueError.
use Prim.Native.Char.{Char}
use Prim.Native.Char.{code}
use Prim.Native.Nat.{◌%◌}
use kil.Prelude.{
  ℕ, suc, ◌+◌, Bool, true, false, not, ◌&&◌, ◌||◌, List, [], ◌∷◌, all, length, keep, is_empty, leb,
  ltb, ◌==◌, String, str_eq, codes, is_prefix, utf8_length, Result, ok, require, if◌then◌else◌,
  ◌>>=◌, ◌>>◌,
}

abbrev max_input : ℕ
max_input = 1048576

abbrev pub max_nodes : ℕ
max_nodes = 32768

abbrev max_lines : ℕ
max_lines = 65536

-- `_Line`
pub record Line : Type 0 where
  pub indent : ℕ
  pub sequence : Bool
  pub body : String

-- No control character but a line feed, and no byte order mark.
is_allowed : ℕ → Bool
is_allowed c = (leb 32 c || c == 10) && not (c == 65279)

extend_line : Char → List String → List String
extend_line c [] = (String.◌∷◌ c String.[]) ∷ []
extend_line c (l ∷ ls) = (String.◌∷◌ c l) ∷ ls

-- `value.split("\n")`
unfoldable pub split_lines : String → List String
unfolding extend_line
split_lines String.[] = String.[] ∷ []
split_lines (String.◌∷◌ c s) =
    let rest = split_lines s in if code c == 10 then String.[] ∷ rest else extend_line c rest

-- The lines without the empty one after the last line feed.
drop_last_empty : List String → List String
drop_last_empty [] = []
drop_last_empty (String.[] ∷ []) = []
drop_last_empty (l ∷ ls) = l ∷ drop_last_empty ls

ends_with : ℕ → List ℕ → Bool
ends_with d [] = false
ends_with d (c ∷ []) = c == d
ends_with d (c ∷ e ∷ cs) = ends_with d (e ∷ cs)

-- The number of spaces at the beginning, and the text after them.
unindent : String → ℕ × String
unindent String.[] = (0, String.[])
unindent (String.◌∷◌ c s) =
    let rest = unindent s in if code c == b' ' then (suc rest.0, rest.1) else (0, String.◌∷◌ c s)

-- The text after the first two characters.
after_two : String → String
after_two (String.◌∷◌ c (String.◌∷◌ d s)) = s
after_two s = String.[]

line_of : ℕ → String → Line
unfolding after_two
line_of indent body =
    if str_eq body "-"
    then record { indent = indent; sequence = true; body = "" }
    else if is_prefix (codes "- ") (codes body)
    then record { indent = indent; sequence = true; body = after_two body }
    else record { indent = indent; sequence = false; body = body }

-- One round of the loop over the lines.
unfoldable pub prepare_line : String → Result Line
unfolding unindent line_of ends_with
prepare_line raw = do
  require (not (is_empty (codes raw)) && not (ends_with b' ' (codes raw)))
  let (indent, body) = unindent raw
  require (indent % 2 == 0)
  require (not (is_empty (codes body)) && not (is_prefix (codes "#") (codes body)))
  require (
      not (is_prefix (codes "%") (codes body))
      && not (str_eq body "---")
      && not (str_eq body "..."))
  ok (line_of indent body)

unfoldable pub prepare_lines : List String → Result (List Line)
unfolding prepare_line
prepare_lines [] = ok []
prepare_lines (raw ∷ rest) = do l ← prepare_line raw; ls ← prepare_lines rest; ok (l ∷ ls)

-- `line_count`: the line feeds, and one more where the text does not end with one.
line_count : List ℕ → ℕ
unfolding ends_with
line_count cs = length (keep (λ c. c == 10) cs) + (if ends_with 10 cs then 0 else 1)

-- `_prepare`
unfoldable pub prepare : String → Result (List Line)
unfolding is_allowed line_count drop_last_empty
prepare text = do
  let cs = codes text
  require (leb (length cs) max_input)
  require (all is_allowed cs)
  require (leb (utf8_length cs) max_input)
  require (leb (line_count cs) max_lines)
  let raw_lines = drop_last_empty (split_lines text)
  require (not (is_empty raw_lines) && ltb (line_count cs) max_nodes)
  prepare_lines raw_lines
