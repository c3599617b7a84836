-- ===== src/Yaml/Fuel.antt =====
-- The blocks and entries of src/kil/v3b2_closed_yaml.py, read on loops that agree.
use kil.Prelude.{
  contains_text, ◌≡◌, refl, ℕ, ◌+◌, ◌<◌, Bool, true, false, not, List, [], ◌∷◌, Option, none, some,
  length, arith, String, Result, ok, raise, require, ◌>>=◌,
}
use kil.Yaml.Lines.{Line}
use kil.Yaml.Counting.{count_node-Grew}
use kil.Yaml.Decoder.{
  Reader, Loops, count_node, read_lines, block_at, block, child_at, entry_value, put,
}
use kil.Yaml.Soundness.{AreGood}

-- Two continuations that agree on what the first statement returns.
pub >>=-cong :
    {Before After : Type 0} (m : Result Before) (f g : Before → Result After)
    → ((x : Before) → m ≡ ok x → f x ≡ g x)
    → (m >>= f) ≡ (m >>= g)
>>=-cong (ok x) f g h = h x refl
>>=-cong (raise e) f g h = refl

-- Loops that read alike from every reader with fewer than `n` lines.
pub record Agree (n : ℕ) (loops loops' : Loops) : Type 0 where
  pub mapping_same :
      (indent depth : ℕ) (seen : List String) (r : Reader)
      → length r.lines < n
      → loops.mapping indent depth seen r ≡ loops'.mapping indent depth seen r
  pub sequence_same :
      (indent depth : ℕ) (r : Reader)
      → length r.lines < n
      → loops.sequence indent depth r ≡ loops'.sequence indent depth r

module _ (json_string : String → Option String) (loops loops' : Loops) (n : ℕ)
    (good : AreGood n loops) (agree : Agree n loops loops') where
  read_lines-same :
      (sequence : Bool) (indent depth : ℕ) (r : Reader)
      → length r.lines < n
      → read_lines json_string loops sequence indent depth r
        ≡ read_lines json_string loops' sequence indent depth r
  unfolding read_lines
  read_lines-same true indent depth r few = >>=-cong (count_node r) _ _ (λ counted c.
      let g = count_node-Grew r counted c in
      rw (agree.sequence_same indent depth counted (omega (arith, g.shorter, few))) refl)
  read_lines-same false indent depth r few = >>=-cong (count_node r) _ _ (λ counted c.
      let g = count_node-Grew r counted c in
      rw (agree.mapping_same indent depth [] counted (omega (arith, g.shorter, few))) refl)

  block_at-same :
      (lines : List Line) (indent depth : ℕ) (r : Reader)
      → length r.lines < n
      → block_at json_string loops lines indent depth r
        ≡ block_at json_string loops' lines indent depth r
  unfolding block_at
  block_at-same [] indent depth r few = refl
  block_at-same (line ∷ lines) indent depth r few =
      rw (read_lines-same line.sequence indent depth r few) refl

  pub block-same :
      (indent depth : ℕ) (r : Reader)
      → length r.lines < n
      → block json_string loops indent depth r ≡ block json_string loops' indent depth r
  unfolding block
  block-same indent depth r few = rw (block_at-same r.lines indent depth r few) refl

  child_at-same :
      (lines : List Line) (parent depth : ℕ) (r : Reader)
      → length r.lines < n
      → child_at json_string loops lines parent depth r
        ≡ child_at json_string loops' lines parent depth r
  unfolding child_at
  child_at-same [] parent depth r few = refl
  child_at-same (line ∷ lines) parent depth r few =
      rw (block-same line.indent (depth + 1) r few) refl

  entry_value-same :
      (raw : Option String) (indent depth : ℕ) (r : Reader)
      → length r.lines < n
      → entry_value json_string loops raw indent depth r
        ≡ entry_value json_string loops' raw indent depth r
  unfolding entry_value
  entry_value-same none indent depth r few = child_at-same r.lines indent depth r few
  entry_value-same (some raw) indent depth r few = refl

  pub put-same :
      (seen : List String) (key : String) (raw : Option String) (indent depth : ℕ) (r : Reader)
      → length r.lines < n
      → put json_string loops seen key raw indent depth r
        ≡ put json_string loops' seen key raw indent depth r
  unfolding put
  put-same seen key raw indent depth r few =
      >>=-cong (require (not (contains_text key seen))) _ _ (λ _ _.
        >>=-cong (count_node r) _ _ (λ counted c.
          let g = count_node-Grew r counted c in
          entry_value-same raw indent depth counted (omega (arith, g.shorter, few))))
