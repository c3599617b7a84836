-- ===== src/Yaml/Decoder.antt =====
-- `_Decoder` of src/kil/v3b2_closed_yaml.py. The index into the lines is the list of the lines that are
-- left. The two loops call each other and themselves once a line is taken, so their depth is at most the
-- number of lines, which is the fuel; `base` stands for what is below it.
use kil.Prelude.{
  contains_text, ℕ, zero, suc, ◌+◌, Bool, true, false, not, ◌&&◌, ◌||◌, List, [], ◌∷◌, Option, none,
  some, length, is_empty, leb, ◌==◌, String, str_eq, codes, Result, ok, raise, require, value_error,
  if◌then◌else◌, ◌>>=◌, ◌>>◌,
}
use kil.Json.{Json, Items, Fields, no_items, item, no_fields, field}
use kil.Yaml.Lines.{Line, max_nodes, prepare}
use kil.Yaml.Scalars.{pair, scalar}

abbrev pub max_depth : ℕ
max_depth = 64

-- The lines that are left, and the nodes that were counted.
pub record Reader : Type 0 where
  pub lines : List Line
  pub nodes : ℕ

-- What is read, and the reader after it.
abbrev pub Read : Type 0 → Type 0
Read A = Result (A × Reader)

-- `_node`
unfoldable pub count_node : Reader → Result Reader
count_node r = do
  require (leb (r.nodes + 1) max_nodes)
  ok (record { lines = r.lines; nodes = r.nodes + 1 })

-- The loops over the lines of a mapping at an indentation and a depth, past the keys that were seen, and
-- of a sequence.
pub record Loops : Type 0 where
  pub mapping : ℕ → ℕ → List String → Reader → Read Fields
  pub sequence : ℕ → ℕ → Reader → Read Items

module _ (json_string : String → Option String) (loops : Loops) where
  -- `_mapping` and `_sequence`, at a line.
  unfoldable pub read_lines : Bool → ℕ → ℕ → Reader → Read Json
  unfolding count_node
  read_lines true indent depth r = do
    counted ← count_node r
    (vs, rest) ← loops.sequence indent depth counted
    ok (Json.array vs, rest)
  read_lines false indent depth r = do
    counted ← count_node r
    (fs, rest) ← loops.mapping indent depth [] counted
    ok (Json.object fs, rest)

  unfoldable pub block_at : List Line → ℕ → ℕ → Reader → Read Json
  unfolding read_lines
  block_at [] indent depth r = raise value_error
  block_at (line ∷ lines) indent depth r = do
    require (line.indent == indent)
    read_lines line.sequence indent depth r

  -- `_block`
  unfoldable pub block : ℕ → ℕ → Reader → Read Json
  unfolding block_at
  block indent depth r = require (leb depth max_depth) >> block_at r.lines indent depth r

  unfoldable pub child_at : List Line → ℕ → ℕ → Reader → Read Json
  unfolding block
  child_at [] parent depth r = raise value_error
  child_at (line ∷ lines) parent depth r = do
    require ((line.indent == parent + 2) || (line.sequence && (line.indent == parent)))
    block line.indent (depth + 1) r

  -- The value of an entry: `_child`, or a scalar.
  unfoldable pub entry_value : Option String → ℕ → ℕ → Reader → Read Json
  unfolding child_at count_node
  entry_value none indent depth r = child_at r.lines indent depth r
  entry_value (some raw) indent depth r = do
    v ← scalar json_string raw
    counted ← count_node r
    ok (v, counted)

  -- `_put`: the value that a new key gets.
  unfoldable pub put : List String → String → Option String → ℕ → ℕ → Reader → Read Json
  unfolding entry_value count_node
  put seen key raw indent depth r = do
    require (not (contains_text key seen))
    counted ← count_node r
    entry_value raw indent depth counted

  -- An entry and the loop over those after it.
  unfoldable pub entries : List String → String × Option String → ℕ → ℕ → Reader → Read Fields
  unfolding put
  entries seen (key, raw) indent depth r = do
    (v, after) ← put seen key raw indent depth r
    (fs, rest) ← loops.mapping indent depth (key ∷ seen) after
    ok (field key v fs, rest)

  -- One round of the loop over a mapping.
  unfoldable pub mapping_step : List Line → ℕ → ℕ → List String → ℕ → Read Fields
  unfolding entries
  mapping_step [] indent depth seen nodes = ok (no_fields, record { lines = []; nodes = nodes })
  mapping_step (line ∷ lines) indent depth seen nodes =
      let round = pair line.body >>= λ entry.
      entries seen entry indent depth (record { lines = lines; nodes = nodes }) in
      if not (line.indent == indent) || line.sequence
      then ok (no_fields, record { lines = line ∷ lines; nodes = nodes })
      else round

  -- An item that begins a mapping on its own line, or else is a scalar.
  unfoldable pub inline_item : Result (String × Option String) → String → ℕ → ℕ → Reader → Read Json
  unfolding entries count_node
  inline_item (raise e) body indent depth r = do
    v ← scalar json_string body
    counted ← count_node r
    ok (v, counted)
  inline_item (ok entry) body indent depth r = do
    counted ← count_node r
    (fs, rest) ← entries [] entry (indent + 2) (depth + 1) counted
    ok (Json.object fs, rest)

  unfoldable pub indented : ℕ → List Line → Bool
  indented indent [] = false
  indented indent (line ∷ lines) = line.indent == indent

  -- The item of a line of a sequence.
  unfoldable pub sequence_item : String → ℕ → ℕ → Reader → Read Json
  unfolding inline_item indented block
  sequence_item body indent depth r =
      let nested = require (indented (indent + 2) r.lines) >> block (indent + 2) (depth + 1) r in
      let inline = inline_item (pair body) body indent depth r in
      if is_empty (codes body) then nested else inline

  -- One round of the loop over a sequence.
  unfoldable pub sequence_step : List Line → ℕ → ℕ → ℕ → Read Items
  unfolding sequence_item
  sequence_step [] indent depth nodes = ok (no_items, record { lines = []; nodes = nodes })
  sequence_step (line ∷ lines) indent depth nodes =
      let round : Read Items = do
        (v, after) ← sequence_item line.body indent depth (record { lines = lines; nodes = nodes })
        (vs, rest) ← loops.sequence indent depth after
        ok (item v vs, rest)
      in if not (line.indent == indent) || not line.sequence
        then ok (no_items, record { lines = line ∷ lines; nodes = nodes })
        else round

module _ (json_string : String → Option String) where
  -- The loops on fuel.
  unfoldable pub loops_on : Loops → ℕ → Loops
  unfolding mapping_step sequence_step
  loops_on base zero = base
  loops_on base (suc fuel) = record {
    mapping = λ indent depth seen r.
        mapping_step json_string (loops_on base fuel) r.lines indent depth seen r.nodes;
    sequence = λ indent depth r.
        sequence_step json_string (loops_on base fuel) r.lines indent depth r.nodes;
  }

  unfoldable pub as_root : Json × Reader → Result Fields
  as_root (Json.object fs, r) = require (is_empty r.lines) >> ok fs
  as_root _ = raise value_error

  unfoldable pub is_empty_mapping : List Line → Bool
  is_empty_mapping (line ∷ []) = (line.indent == 0) && not line.sequence && str_eq line.body "{}"
  is_empty_mapping _ = false

  -- `parse`
  unfoldable pub parse : Loops → ℕ → List Line → Result Fields
  unfolding as_root is_empty_mapping block
  parse base fuel lines =
      let root =
        block json_string (loops_on base fuel) 0 0 (record { lines = lines; nodes = 0 })
        >>= as_root in
      if is_empty_mapping lines then ok no_fields else root

  abbrev pub refusing : Loops
  refusing = record {
    mapping = λ indent depth seen r. raise value_error;
    sequence = λ indent depth r. raise value_error;
  }

  -- `decode_closed_yaml`
  unfoldable pub decode_closed_yaml : String → Result Fields
  unfolding parse
  decode_closed_yaml text = do lines ← prepare text; parse refusing (suc (length lines)) lines
