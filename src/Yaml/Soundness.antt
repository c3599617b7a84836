-- ===== src/Yaml/Soundness.antt =====
-- What the decoder of src/kil/v3b2_closed_yaml.py reads: its nodes are those that it counts, no key
-- stands twice, and no more lines are left than before.
use kil.Prelude.{
  contains_text, is_distinct, ◌≡◌, refl, sym, ℕ, ◌+◌, ◌<◌, Bool, true, false, not, ◌&&◌, ◌||◌, List,
  [], ◌∷◌, Option, none, some, length, leb, ◌==◌, arith, String, ok, require, >>=-eq-ok,
  guard-eq-ok, ok-inj, refuted, ◌>>=◌,
}
use mathlib.Core.Path.{subst}
use kil.Json.{Json, Items, Fields, keys_of, is_closed, are_closed, has_closed}
use kil.QState.Distinct.{Apart, is_distinct-cons}
use kil.Yaml.Lines.{Line}
use kil.Yaml.Scalars.{scalar}
use kil.Yaml.Counting.{size, size_items, size_fields, Grew, Grew-trans, count_node-Grew}
use kil.Yaml.Leaves.{scalar-IsLeaf}
use kil.Yaml.Decoder.{
  Reader, Loops, count_node, read_lines, block_at, block, child_at, entry_value, put, entries,
  max_depth,
}

-- What is read, from one reader to the next.
pub record GoodJson (r : Reader) (y : Json × Reader) : Type 0 where
  pub grew : Grew r (size y.0) y.1
  pub closed : is_closed y.0 ≡ true

pub record GoodItems (r : Reader) (y : Items × Reader) : Type 0 where
  pub grew : Grew r (size_items y.0) y.1
  pub closed : are_closed y.0 ≡ true

-- The keys are distinct, and none of them was seen before.
pub record GoodFields (seen : List String) (r : Reader) (y : Fields × Reader) : Type 0 where
  pub grew : Grew r (size_fields y.0) y.1
  pub closed : has_closed y.0 ≡ true
  pub distinct : Apart seen (keys_of y.0) × (is_distinct (keys_of y.0) ≡ true)

-- Loops that read well from every reader with fewer than `n` lines.
pub record AreGood (n : ℕ) (loops : Loops) : Type 0 where
  pub mapping_good :
      (indent depth : ℕ) (seen : List String) (r : Reader) (y : Fields × Reader)
      → length r.lines < n
      → loops.mapping indent depth seen r ≡ ok y
      → GoodFields seen r y
  pub sequence_good :
      (indent depth : ℕ) (r : Reader) (y : Items × Reader)
      → length r.lines < n
      → loops.sequence indent depth r ≡ ok y
      → GoodItems r y

module _ (json_string : String → Option String) (loops : Loops) (n : ℕ)
    (good : AreGood n loops) where
  read_lines-good :
      (sequence : Bool) (indent depth : ℕ) (r : Reader) (y : Json × Reader)
      → length r.lines < n
      → read_lines json_string loops sequence indent depth r ≡ ok y
      → GoodJson r y
  unfolding read_lines size is_closed
  read_lines-good true indent depth r y few h =
      let (counted, c, h₁) = >>=-eq-ok (count_node r) _ h in
      let (x, read, h₂) = >>=-eq-ok (loops.sequence indent depth counted) _ h₁ in
      let g = count_node-Grew r counted c in
      let s = good.sequence_good indent depth counted x (omega (arith, g.shorter, few)) read in
      subst (GoodJson r) (ok-inj h₂) (record { grew = Grew-trans g s.grew; closed = s.closed })
  read_lines-good false indent depth r y few h =
      let (counted, c, h₁) = >>=-eq-ok (count_node r) _ h in
      let (x, read, h₂) = >>=-eq-ok (loops.mapping indent depth [] counted) _ h₁ in
      let g = count_node-Grew r counted c in
      let s = good.mapping_good indent depth [] counted x (omega (arith, g.shorter, few)) read in
      subst (GoodJson r) (ok-inj h₂)
        (record { grew = Grew-trans g s.grew; closed = rw (s.distinct.1, s.closed) refl })

  block_at-good :
      (lines : List Line) (indent depth : ℕ) (r : Reader) (y : Json × Reader)
      → length r.lines < n
      → block_at json_string loops lines indent depth r ≡ ok y
      → GoodJson r y
  unfolding block_at
  block_at-good [] indent depth r y few h = cc h
  block_at-good (line ∷ lines) indent depth r y few h =
      let (_, _, h₁) = >>=-eq-ok (require (line.indent == indent)) _ h in
      read_lines-good line.sequence indent depth r y few h₁

  pub block-good :
      (indent depth : ℕ) (r : Reader) (y : Json × Reader)
      → length r.lines < n
      → block json_string loops indent depth r ≡ ok y
      → GoodJson r y
  unfolding block
  block-good indent depth r y few h =
      let (_, _, h₁) = >>=-eq-ok (require (leb depth max_depth)) _ h in
      block_at-good r.lines indent depth r y few h₁

  child_at-good :
      (lines : List Line) (parent depth : ℕ) (r : Reader) (y : Json × Reader)
      → length r.lines < n
      → child_at json_string loops lines parent depth r ≡ ok y
      → GoodJson r y
  unfolding child_at
  child_at-good [] parent depth r y few h = cc h
  child_at-good (line ∷ lines) parent depth r y few h =
      let (_, _, h₁) =
        >>=-eq-ok
          (require ((line.indent == parent + 2) || (line.sequence && (line.indent == parent)))) _
          h in
      block-good line.indent (depth + 1) r y few h₁

  -- A scalar and its node.
  pub leaf-good :
      (raw : String) (r : Reader) (y : Json × Reader)
      → (scalar json_string raw >>= λ v. count_node r >>= λ counted. ok (v, counted)) ≡ ok y
      → GoodJson r y
  leaf-good raw r y h =
      let (v, read, h₁) = >>=-eq-ok (scalar json_string raw) _ h in
      let (counted, c, h₂) = >>=-eq-ok (count_node r) _ h₁ in
      let (one, closed) = scalar-IsLeaf json_string raw v read in
      subst (GoodJson r) (ok-inj h₂) (record {
        grew = subst (λ k. Grew r k counted) (sym one) (count_node-Grew r counted c);
        closed = closed;
      })

  pub entry_value-good :
      (raw : Option String) (indent depth : ℕ) (r : Reader) (y : Json × Reader)
      → length r.lines < n
      → entry_value json_string loops raw indent depth r ≡ ok y
      → GoodJson r y
  unfolding entry_value
  entry_value-good none indent depth r y few h = child_at-good r.lines indent depth r y few h
  entry_value-good (some raw) indent depth r y few h = leaf-good raw r y h

  pub entries-good :
      (seen : List String) (entry : String × Option String) (indent depth : ℕ) (r : Reader)
      (y : Fields × Reader)
      → length r.lines < n
      → entries json_string loops seen entry indent depth r ≡ ok y
      → GoodFields seen r y
  unfolding entries put size_fields has_closed keys_of
  entries-good seen (key, raw) indent depth r y few h =
      let (x, read, h₁) = >>=-eq-ok (put json_string loops seen key raw indent depth r) _ h in
      let (_, fresh, k₁) = >>=-eq-ok (require (not (contains_text key seen))) _ read in
      let (counted, c, k₂) = >>=-eq-ok (count_node r) _ k₁ in
      let g = count_node-Grew r counted c in
      let v = entry_value-good raw indent depth counted x (omega (arith, g.shorter, few)) k₂ in
      let (z, rest, h₂) = >>=-eq-ok (loops.mapping indent depth (key ∷ seen) x.1) _ h₁ in
      let s =
        good.mapping_good indent depth (key ∷ seen) x.1 z
          (omega (arith, g.shorter, v.grew.shorter, few)) rest in
      subst (GoodFields seen r) (ok-inj h₂) (record {
        grew = Grew-trans (Grew-trans g v.grew) s.grew;
        closed = rw (v.closed, s.closed) refl;
        distinct =
            is_distinct-cons key seen (keys_of z.0) (refuted _ (guard-eq-ok _ _ fresh)) s.distinct;
      })
