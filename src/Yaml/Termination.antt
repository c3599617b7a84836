-- ===== src/Yaml/Termination.antt =====
-- The fuel of the decoder of src/kil/v3b2_closed_yaml.py never runs out: with more fuel than lines, what
-- stands below the fuel is never reached.
use kil.Prelude.{
  contains_text, ◌≡◌, refl, sym, ℕ, zero, suc, ◌+◌, ◌≤◌, ◌<◌, not, List, [], ◌∷◌, Option, length,
  arith, String, Result, ok, raise, require, ◌>>=◌,
}
use kil.Json.{Json, Items, item}
use kil.Yaml.Lines.{Line}
use kil.Yaml.Scalars.{pair}
use kil.Yaml.Counting.{count_node-Grew}
use kil.Yaml.Decoder.{
  Reader, Read, Loops, count_node, put, entries, mapping_step, inline_item, indented, as_root,
  parse, sequence_item, sequence_step, loops_on,
}
use kil.Yaml.Soundness.{AreGood, entry_value-good}
use kil.Yaml.Rounds.{sequence_item-good, loops_on-AreGood}
use kil.Yaml.Fuel.{Agree, >>=-cong, put-same, block-same}
use kil.Prelude.{>>=-eq-ok}

-- The rest of a sequence after an item.
after_item : Loops → ℕ → ℕ → Json × Reader → Read Items
after_item loops indent depth (v, after) = do
  (vs, rest) ← loops.sequence indent depth after
  ok (item v vs, rest)

AreGood-weaken : (m n : ℕ) (loops : Loops) → m ≤ n → AreGood n loops → AreGood m loops
AreGood-weaken m n loops h good = record {
  mapping_good = λ indent depth seen r y few e.
      good.mapping_good indent depth seen r y (omega (arith, h, few)) e;
  sequence_good =
      λ indent depth r y few e. good.sequence_good indent depth r y (omega (arith, h, few)) e;
}

module _ (json_string : String → Option String) (loops loops' : Loops) (n : ℕ)
    (good : AreGood n loops) (agree : Agree n loops loops') where
  -- No more lines are left once an entry has its value.
  put-shorter :
      (seen : List String) (key : String) (raw : Option String) (indent depth : ℕ) (r : Reader)
      (x : Json × Reader)
      → length r.lines < n
      → put json_string loops seen key raw indent depth r ≡ ok x
      → length x.1.lines ≤ length r.lines
  unfolding put
  put-shorter seen key raw indent depth r x few h =
      let (_, _, h₁) = >>=-eq-ok (require (not (contains_text key seen))) _ h in
      let (counted, c, h₂) = >>=-eq-ok (count_node r) _ h₁ in
      let g = count_node-Grew r counted c in
      let v =
        entry_value-good json_string loops n good raw indent depth counted x
          (omega (arith, g.shorter, few)) h₂ in
      omega (arith, g.shorter, v.grew.shorter)

  entries-same :
      (seen : List String) (entry : String × Option String) (indent depth : ℕ) (r : Reader)
      → length r.lines < n
      → entries json_string loops seen entry indent depth r
        ≡ entries json_string loops' seen entry indent depth r
  unfolding entries
  entries-same seen (key, raw) indent depth r few =
      rw (sym (put-same json_string loops loops' n good agree seen key raw indent depth r few)) (
        >>=-cong (put json_string loops seen key raw indent depth r) _ _ (λ x read.
          rw
            (agree.mapping_same indent depth (key ∷ seen) x.1
              (omega (arith, put-shorter seen key raw indent depth r x few read, few)))
            refl))

  mapping_step-same :
      (lines : List Line) (indent depth : ℕ) (seen : List String) (nodes : ℕ)
      → length lines < suc n
      → mapping_step json_string loops lines indent depth seen nodes
        ≡ mapping_step json_string loops' lines indent depth seen nodes
  unfolding mapping_step
  mapping_step-same [] indent depth seen nodes few = refl
  mapping_step-same (line ∷ lines) indent depth seen nodes few =
      let r : Reader = record { lines = lines; nodes = nodes } in
      let same =
        >>=-cong (pair line.body) (λ entry. entries json_string loops seen entry indent depth r)
          (λ entry. entries json_string loops' seen entry indent depth r)
          (λ entry _. entries-same seen entry indent depth r (omega (arith, few))) in
      rw same refl

  inline_item-same :
      (entry : Result (String × Option String)) (body : String) (indent depth : ℕ) (r : Reader)
      → length r.lines < n
      → inline_item json_string loops entry body indent depth r
        ≡ inline_item json_string loops' entry body indent depth r
  unfolding inline_item
  inline_item-same (raise e) body indent depth r few = refl
  inline_item-same (ok entry) body indent depth r few = >>=-cong (count_node r) _ _ (λ counted c.
      let g = count_node-Grew r counted c in
      rw (entries-same [] entry (indent + 2) (depth + 1) counted (omega (arith, g.shorter, few)))
        refl)

  sequence_item-same :
      (body : String) (indent depth : ℕ) (r : Reader)
      → length r.lines < n
      → sequence_item json_string loops body indent depth r
        ≡ sequence_item json_string loops' body indent depth r
  unfolding sequence_item indented
  sequence_item-same body indent depth r few =
      rw
        (
          block-same json_string loops loops' n good agree (indent + 2) (depth + 1) r few,
          inline_item-same (pair body) body indent depth r few,
        )
        refl

  sequence_step-same :
      (lines : List Line) (indent depth nodes : ℕ)
      → length lines < suc n
      → sequence_step json_string loops lines indent depth nodes
        ≡ sequence_step json_string loops' lines indent depth nodes
  unfolding sequence_step after_item
  sequence_step-same [] indent depth nodes few = refl
  sequence_step-same (line ∷ lines) indent depth nodes few =
      let r : Reader = record { lines = lines; nodes = nodes } in
      let same =
        >>=-cong (sequence_item json_string loops line.body indent depth r)
          (after_item loops indent depth) (after_item loops' indent depth)
          (λ x read.
            let v =
              sequence_item-good json_string loops n good line.body indent depth r x
                (omega (arith, few)) read in
            rw (agree.sequence_same indent depth x.1 (omega (arith, v.grew.shorter, few))) refl) in
      rw (sym (sequence_item-same line.body indent depth r (omega (arith, few))), same) refl

module _ (json_string : String → Option String) (base base' : Loops) where
  loops_on-Agree :
      (n fuel fuel' : ℕ)
      → n ≤ fuel
      → n ≤ fuel'
      → Agree n (loops_on json_string base fuel) (loops_on json_string base' fuel')
  unfolding loops_on
  loops_on-Agree zero fuel fuel' h h' = record {
    mapping_same = λ indent depth seen r few. absurd (omega (arith, few));
    sequence_same = λ indent depth r few. absurd (omega (arith, few));
  }
  loops_on-Agree (suc n) zero fuel' h h' = absurd (omega (arith, h))
  loops_on-Agree (suc n) (suc fuel) zero h h' = absurd (omega (arith, h'))
  loops_on-Agree (suc n) (suc fuel) (suc fuel') h h' =
      let l = loops_on json_string base fuel in
      let l' = loops_on json_string base' fuel' in
      let good =
        AreGood-weaken n fuel l (omega (arith, h)) (loops_on-AreGood json_string base fuel) in
      let agree = loops_on-Agree n fuel fuel' (omega (arith, h)) (omega (arith, h')) in
      record {
        mapping_same = λ indent depth seen r few.
            mapping_step-same json_string l l' n good agree r.lines indent depth seen r.nodes few;
        sequence_same = λ indent depth r few.
            sequence_step-same json_string l l' n good agree r.lines indent depth r.nodes few;
      }

  -- On any fuel above the number of lines, the parser gives the same result, whatever stands below the
  -- fuel: the two loops end by themselves.
  pub parse-fuel :
      (lines : List Line) (fuel fuel' : ℕ)
      → length lines < fuel
      → length lines < fuel'
      → parse json_string base fuel lines ≡ parse json_string base' fuel' lines
  unfolding parse as_root
  parse-fuel lines fuel fuel' h h' =
      let n = suc (length lines) in
      let good =
        AreGood-weaken n fuel (loops_on json_string base fuel) (omega (arith, h))
          (loops_on-AreGood json_string base fuel) in
      rw
        (block-same json_string (loops_on json_string base fuel) (loops_on json_string base' fuel')
          n good (loops_on-Agree n fuel fuel' (omega (arith, h)) (omega (arith, h'))) 0 0
          (record { lines = lines; nodes = 0 }) (omega arith))
        refl
