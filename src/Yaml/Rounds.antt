-- ===== src/Yaml/Rounds.antt =====
-- The rounds of the loops of src/kil/v3b2_closed_yaml.py, and what a decoded text is.
use kil.Prelude.{
  is_distinct, ◌≡◌, refl, ℕ, zero, suc, ◌+◌, ◌≤◌, ◌<◌, inl, inr, true, not, ◌||◌, List, [], ◌∷◌,
  Option, length, is_empty, codes, ◌==◌, arith, String, Result, ok, raise, require, >>=-eq-ok,
  checked-eq-ok, ok-inj,
}
use mathlib.Core.Path.{subst}
use kil.Json.{Json, Items, Fields, no_items, no_fields, keys_of, is_closed, are_closed, has_closed}
use kil.Yaml.Lines.{Line, max_nodes, prepare}
use kil.Yaml.Scalars.{pair}
use kil.Yaml.Counting.{size, size_items, size_fields, Grew, Grew-refl, Grew-trans, count_node-Grew}
use kil.Yaml.Leaves.{if-eq-ok}
use kil.Yaml.Decoder.{
  Reader, Read, Loops, count_node, block, entries, mapping_step, inline_item, indented, as_root,
  is_empty_mapping, parse, refusing, decode_closed_yaml, sequence_item, sequence_step, loops_on,
}
use kil.Yaml.Soundness.{
  GoodJson, GoodItems, GoodFields, AreGood, entries-good, leaf-good, block-good,
}

-- A reader that takes its first line.
took_line :
    (line : Line) (lines : List Line) (nodes k : ℕ) (r : Reader)
    → Grew (record { lines = lines; nodes = nodes }) k r
    → Grew (record { lines = line ∷ lines; nodes = nodes }) k r
took_line line lines nodes k r g = record {
  shorter = omega (arith, g.shorter);
  counted = g.counted;
  bounded = g.bounded;
}

no_fields-good :
    (seen : List String) (r : Reader) (y : Fields × Reader)
    → Path (Read Fields) (ok (no_fields, r)) (ok y)
    → GoodFields seen r y
unfolding size_fields has_closed keys_of is_distinct
no_fields-good seen r y h =
    subst (GoodFields seen r) (ok-inj h)
      (record { grew = Grew-refl r; closed = refl; distinct = (tt, refl) })

no_items-good :
    (r : Reader) (y : Items × Reader) → Path (Read Items) (ok (no_items, r)) (ok y) → GoodItems r y
unfolding size_items are_closed
no_items-good r y h = subst (GoodItems r) (ok-inj h) (record { grew = Grew-refl r; closed = refl })

module _ (json_string : String → Option String) (loops : Loops) (n : ℕ)
    (good : AreGood n loops) where
  mapping_step-good :
      (lines : List Line) (indent depth : ℕ) (seen : List String) (nodes : ℕ) (y : Fields × Reader)
      → length lines < suc n
      → mapping_step json_string loops lines indent depth seen nodes ≡ ok y
      → GoodFields seen (record { lines = lines; nodes = nodes }) y
  unfolding mapping_step
  mapping_step-good [] indent depth seen nodes y few h = no_fields-good seen _ y h
  mapping_step-good (line ∷ lines) indent depth seen nodes y few h =
      let r : Reader = record { lines = lines; nodes = nodes } in
      elim (if-eq-ok (not (line.indent == indent) || line.sequence) _ _ h) [
        | inl e ↦ no_fields-good seen _ y e
        | inr e ↦
            let (entry, _, h₁) = >>=-eq-ok (pair line.body) _ e in
            let g =
              entries-good json_string loops n good seen entry indent depth r y (omega (arith, few))
                h₁ in
            record {
              grew = took_line line lines nodes _ y.1 g.grew;
              closed = g.closed;
              distinct = g.distinct;
            }
      ]

  inline_item-good :
      (entry : Result (String × Option String)) (body : String) (indent depth : ℕ) (r : Reader)
      (y : Json × Reader)
      → length r.lines < n
      → inline_item json_string loops entry body indent depth r ≡ ok y
      → GoodJson r y
  unfolding inline_item size is_closed
  inline_item-good (raise e) body indent depth r y few h =
      leaf-good json_string loops n good body r y h
  inline_item-good (ok entry) body indent depth r y few h =
      let (counted, c, h₁) = >>=-eq-ok (count_node r) _ h in
      let (x, read, h₂) =
        >>=-eq-ok (entries json_string loops [] entry (indent + 2) (depth + 1) counted) _ h₁ in
      let g = count_node-Grew r counted c in
      let s =
        entries-good json_string loops n good [] entry (indent + 2) (depth + 1) counted x
          (omega (arith, g.shorter, few)) read in
      subst (GoodJson r) (ok-inj h₂)
        (record { grew = Grew-trans g s.grew; closed = rw (s.distinct.1, s.closed) refl })

  pub sequence_item-good :
      (body : String) (indent depth : ℕ) (r : Reader) (y : Json × Reader)
      → length r.lines < n
      → sequence_item json_string loops body indent depth r ≡ ok y
      → GoodJson r y
  unfolding sequence_item
  sequence_item-good body indent depth r y few h = elim (if-eq-ok (is_empty (codes body)) _ _ h) [
    | inl e ↦
        let (_, _, h₁) =
          >>=-eq-ok (require (indented json_string loops (indent + 2) r.lines)) _ e in
        block-good json_string loops n good (indent + 2) (depth + 1) r y few h₁
    | inr e ↦ inline_item-good (pair body) body indent depth r y few e
  ]

  sequence_step-good :
      (lines : List Line) (indent depth nodes : ℕ) (y : Items × Reader)
      → length lines < suc n
      → sequence_step json_string loops lines indent depth nodes ≡ ok y
      → GoodItems (record { lines = lines; nodes = nodes }) y
  unfolding sequence_step size_items are_closed
  sequence_step-good [] indent depth nodes y few h = no_items-good _ y h
  sequence_step-good (line ∷ lines) indent depth nodes y few h =
      let r : Reader = record { lines = lines; nodes = nodes } in
      elim (if-eq-ok (not (line.indent == indent) || not line.sequence) _ _ h) [
        | inl e ↦ no_items-good _ y e
        | inr e ↦
            let (x, read, h₁) =
              >>=-eq-ok (sequence_item json_string loops line.body indent depth r) _ e in
            let v = sequence_item-good line.body indent depth r x (omega (arith, few)) read in
            let (z, rest, h₂) = >>=-eq-ok (loops.sequence indent depth x.1) _ h₁ in
            let s =
              good.sequence_good indent depth x.1 z (omega (arith, v.grew.shorter, few)) rest in
            subst (GoodItems (record { lines = line ∷ lines; nodes = nodes })) (ok-inj h₂) (record {
              grew = took_line line lines nodes _ z.1 (Grew-trans v.grew s.grew);
              closed = rw (v.closed, s.closed) refl;
            })
      ]

-- On more fuel than lines, the loops read well, whatever stands below the fuel.
pub loops_on-AreGood :
    (json_string : String → Option String) (base : Loops) (fuel : ℕ)
    → AreGood fuel (loops_on json_string base fuel)
unfolding loops_on
loops_on-AreGood json_string base zero = record {
  mapping_good = λ indent depth seen r y few h. absurd (omega (arith, few));
  sequence_good = λ indent depth r y few h. absurd (omega (arith, few));
}
loops_on-AreGood json_string base (suc fuel) =
    let good = loops_on-AreGood json_string base fuel in
    let loops = loops_on json_string base fuel in
    record {
      mapping_good = λ indent depth seen r y few h.
          mapping_step-good json_string loops fuel good r.lines indent depth seen r.nodes y few h;
      sequence_good = λ indent depth r y few h.
          sequence_step-good json_string loops fuel good r.lines indent depth r.nodes y few h;
    }

-- A mapping of bounded size in which no object has a key twice.
abbrev pub IsBoundedMapping : Fields → Type 0
IsBoundedMapping fs = (size (Json.object fs) ≤ max_nodes) × (is_closed (Json.object fs) ≡ true)

module _ (json_string : String → Option String) where
  as_root-good :
      (r : Reader) (x : Json × Reader) (fs : Fields)
      → r.nodes ≡ 0
      → GoodJson r x
      → as_root json_string x ≡ ok fs
      → IsBoundedMapping fs
  unfolding as_root
  as_root-good r (Json.object gs, r') fs zero_nodes g h =
      let (checked, same) = checked-eq-ok (require (is_empty r'.lines)) gs h in
      subst IsBoundedMapping same (
        (omega (arith, zero_nodes, g.grew.counted, g.grew.bounded (omega (arith, zero_nodes)))),
        g.closed,
      )
  as_root-good r (Json.null, r') fs zero_nodes g h = cc h
  as_root-good r (Json.number, r') fs zero_nodes g h = cc h
  as_root-good r (Json.boolean b, r') fs zero_nodes g h = cc h
  as_root-good r (Json.integer n, r') fs zero_nodes g h = cc h
  as_root-good r (Json.text s, r') fs zero_nodes g h = cc h
  as_root-good r (Json.array xs, r') fs zero_nodes g h = cc h

  parse-good :
      (base : Loops) (lines : List Line) (fs : Fields)
      → parse json_string base (suc (length lines)) lines ≡ ok fs
      → IsBoundedMapping fs
  unfolding parse
  parse-good base lines fs h =
      let r : Reader = record { lines = lines; nodes = 0 } in
      let fuel = suc (length lines) in
      elim (if-eq-ok (is_empty_mapping json_string lines) _ _ h) [
        | inl e ↦ subst IsBoundedMapping (ok-inj e) (
          unfold size size_fields in omega arith,
          unfold is_closed is_distinct keys_of has_closed in refl,
        )
        | inr e ↦
            let (x, read, h₁) =
              >>=-eq-ok (block json_string (loops_on json_string base fuel) 0 0 r) _ e in
            as_root-good r x fs refl
              (block-good json_string (loops_on json_string base fuel) fuel
                (loops_on-AreGood json_string base fuel) 0 0 r x (omega arith) read)
              h₁
      ]

  -- A text that is decoded is a mapping of at most 32,768 nodes, keys included, and no mapping in it, at any
  -- depth, has a key twice.
  pub decode_closed_yaml-bounded :
      (text : String) (fs : Fields)
      → decode_closed_yaml json_string text ≡ ok fs
      → (size (Json.object fs) ≤ max_nodes) × (is_closed (Json.object fs) ≡ true)
  unfolding decode_closed_yaml
  decode_closed_yaml-bounded text fs h =
      let (lines, _, h₁) = >>=-eq-ok (prepare text) _ h in
      parse-good (refusing json_string) lines fs h₁
