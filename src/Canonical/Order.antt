-- ===== src/Canonical/Order.antt =====
-- Values that src/kil/canonical.py should not tell apart, and that sorting makes the same.
use kil.Prelude.{
  ◌≡◌, refl, ap, sym, ℕ, true, false, List, [], ◌∷◌, inl, inr, ◌⊎◌, String, codes, arith,
  Bool-cases,
}
use kil.Canonical.Values.{
  Value, Members, Values, no_members, member, no_values, value, lt_codes, before, insert_member,
  sort_members,
}

-- Values that differ in the order of the items of their dicts only.
mutual
  pub data Same : Value → Value → Type 0 where
    same : (v : Value) → Same v v
    in_enumeration : {v w : Value} → Same v w → Same (Value.enumeration v) (Value.enumeration w)
    in_dataclass :
        {ms ms' : Members} → SameInOrder ms ms' → Same (Value.dataclass ms) (Value.dataclass ms')
    in_dict : {ms ms' : Members} → SameMembers ms ms' → Same (Value.dict ms) (Value.dict ms')
    in_sequence : {vs ws : Values} → SameValues vs ws → Same (Value.sequence vs) (Value.sequence ws)

  pub data SameValues : Values → Values → Type 0 where
    no_more : SameValues no_values no_values
    and_then :
        {v w : Value} {vs ws : Values}
        → Same v w
        → SameValues vs ws
        → SameValues (value v vs) (value w ws)

  -- The same keys in the same order.
  pub data SameInOrder : Members → Members → Type 0 where
    end : SameInOrder no_members no_members
    next :
        (k : String) {v w : Value} {ms ms' : Members}
        → Same v w
        → SameInOrder ms ms'
        → SameInOrder (member k v ms) (member k w ms')
    through : {a b c : Members} → SameInOrder a b → SameInOrder b c → SameInOrder a c

  -- The same keys in any order.
  pub data SameMembers : Members → Members → Type 0 where
    nothing : SameMembers no_members no_members
    keep_first :
        (k : String) {v w : Value} {ms ms' : Members}
        → Same v w
        → SameMembers ms ms'
        → SameMembers (member k v ms) (member k w ms')
    swap_first :
        (k l : String) (v w : Value) (ms : Members)
        → (before k l ≡ true) ⊎ (before l k ≡ true)
        → SameMembers (member k v (member l w ms)) (member l w (member k v ms))
    in_turn : {a b c : Members} → SameMembers a b → SameMembers b c → SameMembers a c

lt_codes_asym : (xs ys : List ℕ) → lt_codes xs ys ≡ true → lt_codes ys xs ≡ false
unfolding lt_codes
lt_codes_asym xs [] h = cc h
lt_codes_asym [] (y ∷ ys) h = refl
lt_codes_asym (x ∷ xs) (y ∷ ys) h = ground (arith, lt_codes_asym xs ys)

lt_codes_trans :
    (xs ys zs : List ℕ) → lt_codes xs ys ≡ true → lt_codes ys zs ≡ true → lt_codes xs zs ≡ true
unfolding lt_codes
lt_codes_trans xs ys [] h k = cc k
lt_codes_trans xs [] (z ∷ zs) h k = cc h
lt_codes_trans [] (y ∷ ys) (z ∷ zs) h k = refl
lt_codes_trans (x ∷ xs) (y ∷ ys) (z ∷ zs) h k = ground (arith, lt_codes_trans xs ys zs)

module _ (k l : String) (v w : Value) (first : before k l ≡ true) where
  -- A key and a later one are inserted in either order.
  insert_member_comm :
      (ms : Members)
      → insert_member k v (insert_member l w ms) ≡ insert_member l w (insert_member k v ms)
  unfolding insert_member
  insert_member_comm no_members = rw (first, lt_codes_asym (codes k) (codes l) first) refl
  insert_member_comm (member m u ms) = elim (Bool-cases (before l m)) [
    | inl e ↦
        rw
          (
            e,
            lt_codes_trans (codes k) (codes l) (codes m) first e,
            first,
            lt_codes_asym (codes k) (codes l) first,
          )
          (rw e refl)
    | inr e ↦ elim (Bool-cases (before k m)) [
      | inl f ↦ rw (e, f, lt_codes_asym (codes k) (codes l) first) (rw e refl)
      | inr f ↦ rw (e, f) (rw e (ap (λ rest. member m u rest) (insert_member_comm ms)))
    ]
  ]

insert_member-swap :
    (k l : String) (v w : Value) (ms : Members)
    → (before k l ≡ true) ⊎ (before l k ≡ true)
    → insert_member k v (insert_member l w ms) ≡ insert_member l w (insert_member k v ms)
insert_member-swap k l v w ms (inl first) = insert_member_comm k l v w first ms
insert_member-swap k l v w ms (inr first) = sym (insert_member_comm l k w v first ms)

SameInOrder-refl : (ms : Members) → SameInOrder ms ms
SameInOrder-refl no_members = SameInOrder.end
SameInOrder-refl (member k v ms) = SameInOrder.next k (Same.same v) (SameInOrder-refl ms)

insert_member-SameInOrder :
    (k : String) {v w : Value} {ms ms' : Members}
    → Same v w
    → SameInOrder ms ms'
    → SameInOrder (insert_member k v ms) (insert_member k w ms')
unfolding insert_member
insert_member-SameInOrder k s SameInOrder.end = SameInOrder.next k s SameInOrder.end
insert_member-SameInOrder k s (SameInOrder.next l t rest) = elim (Bool-cases (before k l)) [
  | inl e ↦ rw e (SameInOrder.next k s (SameInOrder.next l t rest))
  | inr e ↦ rw e (SameInOrder.next l t (insert_member-SameInOrder k s rest))
]
insert_member-SameInOrder k {v = v} s (SameInOrder.through r r') =
    SameInOrder.through (insert_member-SameInOrder k (Same.same v) r)
      (insert_member-SameInOrder k s r')

-- Sorting forgets the order of the items.
pub sort_members-SameInOrder :
    {ms ms' : Members} → SameMembers ms ms' → SameInOrder (sort_members ms) (sort_members ms')
unfolding sort_members
sort_members-SameInOrder SameMembers.nothing = SameInOrder.end
sort_members-SameInOrder (SameMembers.keep_first k s rest) =
    insert_member-SameInOrder k s (sort_members-SameInOrder rest)
sort_members-SameInOrder (SameMembers.swap_first k l v w ms differ) =
    rw (insert_member-swap k l v w (sort_members ms) differ) (SameInOrder-refl _)
sort_members-SameInOrder (SameMembers.in_turn r r') =
    SameInOrder.through (sort_members-SameInOrder r) (sort_members-SameInOrder r')
