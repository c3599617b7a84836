-- ===== src/Yaml/Counting.antt =====
-- The nodes that src/kil/v3b2_closed_yaml.py counts, and how a reader moves on.
use kil.Prelude.{
  ◌≡◌, refl, ℕ, ◌+◌, ◌≤◌, arith, length, leb, require, >>=-eq-ok, guard-eq-ok, ok, ok-inj, leb→le,
}
use mathlib.Core.Path.{subst}
use kil.Json.{Json, Items, Fields, no_items, item, no_fields, field}
use kil.Yaml.Lines.{max_nodes}
use kil.Yaml.Decoder.{Reader, count_node}

-- A key, a scalar, a mapping and a sequence are one node each.
unfoldable mutual
  pub size : Json → ℕ
  size (Json.array xs) = 1 + size_items xs
  size (Json.object fs) = 1 + size_fields fs
  size _ = 1

  pub size_items : Items → ℕ
  size_items no_items = 0
  size_items (item v rest) = size v + size_items rest

  pub size_fields : Fields → ℕ
  size_fields no_fields = 0
  size_fields (field k v rest) = 1 + size v + size_fields rest

-- A reader that has counted `n` nodes more, within the bound, and has not more lines left.
pub record Grew (r : Reader) (n : ℕ) (r' : Reader) : Type 0 where
  pub shorter : length r'.lines ≤ length r.lines
  pub counted : r'.nodes ≡ r.nodes + n
  pub bounded : r.nodes ≤ max_nodes → r'.nodes ≤ max_nodes

pub Grew-refl : (r : Reader) → Grew r 0 r
Grew-refl r = record { shorter = omega arith; counted = omega arith; bounded = λ h. h }

pub Grew-trans : {a b c : Reader} {n m : ℕ} → Grew a n b → Grew b m c → Grew a (n + m) c
Grew-trans g h = record {
  shorter = omega (arith, g.shorter, h.shorter);
  counted = omega (arith, g.counted, h.counted);
  bounded = λ k. h.bounded (g.bounded k);
}

pub count_node-Grew : (r r' : Reader) → count_node r ≡ ok r' → Grew r 1 r'
unfolding count_node
count_node-Grew r r' h =
    let (_, checked, h₁) = >>=-eq-ok (require (leb (r.nodes + 1) max_nodes)) _ h in
    subst (Grew r 1) (ok-inj h₁) (record {
      shorter = omega arith;
      counted = refl;
      bounded = λ k. leb→le (r.nodes + 1) max_nodes (guard-eq-ok _ _ checked);
    })
