-- ===== src/Decay/Bounds.antt =====
-- What the functions of src/kil/decay.py promise on valid inputs: a bounded result, or a trapped
-- arithmetic signal, and never a ValueError.
use kil.Prelude.{
  ◌≡◌, refl, inl, inr, Bool, true, arith, ℤ, pos, ◌≤ℤ◌, Result, ok, raise, is_arithmetic, ◌>>=◌,
  ◌>>◌, Bool-cases, require, if◌then◌else◌,
}
use kil.Decimal.{
  Decimal, is_finite, Le, Le-trans, Le-refl, le_dec, min_dec, max_dec, zero_dec, one_dec, Context,
  ContextLaws, Finite, Charge, Nonneg, NonnegResult, Traps, min_dec-le_left, min_dec-le_right,
  le-max_dec_left, min_dec-elim, max_dec-elim, Le→not_lt_dec, not_Le→not_le_dec, not_Le→Ge,
}
use kil.Decay.Defs.{
  require_finite, require_nonneg, require_positive, decayed_exactly, passive_decay, penalty,
  superlinear_loss, reduced_charge, local_effective_charge,
}

-- A result satisfies `P`, and an exception is a trapped arithmetic signal.
abbrev pub Ensures {ℓ} : {A : Type ℓ} → (A → Type 0) → Result A → Type 0
Ensures P (ok a) = P a
Ensures P (raise e) = is_arithmetic e ≡ true

pub Ensures-bind {ℓ κ} :
    {A : Type ℓ} {B : Type κ} (P : A → Type 0) (Q : B → Type 0) (m : Result A) (f : A → Result B)
    → Ensures P m
    → ((a : A) → P a → Ensures Q (f a))
    → Ensures Q (m >>= f)
Ensures-bind P Q (ok a) f h k = k a h
Ensures-bind P Q (raise e) f h k = h

pub Ensures-Traps : (m : Result Decimal) → Traps m → Ensures (λ d. is_finite d ≡ true) m
Ensures-Traps (ok d) h = h
Ensures-Traps (raise e) h = h

Ensures-Charge : (m : Result Decimal) → Traps m → NonnegResult m → Ensures Charge m
Ensures-Charge (ok d) h k = (h, k)
Ensures-Charge (raise e) h k = h

-- The checks pass on valid inputs.
module _ {ℓ} {A : Type ℓ} (P : A → Type 0) (m : Result A) where
  Ensures-finite :
      (d : Decimal) → is_finite d ≡ true → Ensures P m → Ensures P (require_finite d >> m)
  unfolding require_finite
  Ensures-finite d h k = rw h k

  Ensures-Nonneg : (d : Decimal) → Nonneg d → Ensures P m → Ensures P (require_nonneg d >> m)
  unfolding require_nonneg
  Ensures-Nonneg d h k = rw (Le→not_lt_dec d zero_dec h) k

  Ensures-positive :
      (d : Decimal) → ¬ Le d zero_dec → Ensures P m → Ensures P (require_positive d >> m)
  unfolding require_positive
  Ensures-positive d h k = rw (not_Le→not_le_dec d zero_dec h) k

  Ensures-require : (b : Bool) → b ≡ true → Ensures P m → Ensures P (require b >> m)
  Ensures-require b h k = rw h k

-- The result of a clamp: finite, not negative, and below every bound of the clamp.
abbrev pub Within : Decimal → Decimal → Type 0
Within bound d = (is_finite d ≡ true) × Nonneg d × Le d bound

clamp-Within :
    (charge computed : Decimal)
    → Charge charge
    → is_finite computed ≡ true
    → Within charge (min_dec charge (max_dec zero_dec computed))
clamp-Within charge computed h f = (
  min_dec-elim charge _ (λ d. is_finite d ≡ true) h.0
      (max_dec-elim zero_dec computed (λ d. is_finite d ≡ true) refl f),
  min_dec-elim charge _ Nonneg h.1 (le-max_dec_left zero_dec computed),
  min_dec-le_left charge _,
)

module _ (c : Context) (laws : ContextLaws c) where
  open laws use {
    minus_traps, subtract_traps, multiply_traps, divide_traps, power_traps, exp_traps,
    multiply_nonneg, divide_nonneg, power_nonneg,
  }

  decayed_exactly-Ensures :
      (charge decay_rate elapsed : Decimal)
      → Finite charge
      → Finite decay_rate
      → Finite elapsed
      → Ensures Finite (decayed_exactly c charge decay_rate elapsed)
  unfolding decayed_exactly
  decayed_exactly-Ensures charge decay_rate elapsed fc fr fe =
      Ensures-bind Finite Finite (c.minus_op decay_rate) _
        (Ensures-Traps _ (minus_traps decay_rate fr))
        λ negated fn.
          Ensures-bind Finite Finite (c.multiply_op negated elapsed) _
            (Ensures-Traps _ (multiply_traps negated elapsed fn fe))
            λ scaled fs.
              Ensures-bind Finite Finite (c.exp_op scaled) _ (Ensures-Traps _ (exp_traps scaled fs))
                λ factor ff. Ensures-Traps _ (multiply_traps charge factor fc ff)

  -- Passive decay of a charge, at a rate and over a time that are finite and not negative, keeps it
  -- in [0, charge], whatever the rounding of `exp` does, or ends in a trapped signal.
  pub passive_decay-Ensures :
      (charge decay_rate elapsed : Decimal)
      → Charge charge
      → Charge decay_rate
      → Charge elapsed
      → Ensures (Within charge) (passive_decay c charge decay_rate elapsed)
  unfolding passive_decay
  passive_decay-Ensures charge decay_rate elapsed hc hr he =
      Ensures-finite (Within charge) _ charge hc.0 (
        Ensures-finite (Within charge) _ decay_rate hr.0 (
          Ensures-finite (Within charge) _ elapsed he.0 (
            Ensures-Nonneg (Within charge) _ charge hc.1 (
              Ensures-Nonneg (Within charge) _ decay_rate hr.1 (
                Ensures-Nonneg (Within charge) _ elapsed he.1 (
                  Ensures-bind (λ d. is_finite d ≡ true) (Within charge)
                    (decayed_exactly c charge decay_rate elapsed) _
                    (decayed_exactly-Ensures charge decay_rate elapsed hc.0 hr.0 he.0)
                    λ computed f. clamp-Within charge computed hc f))))))

  penalty-Ensures :
      (divergence threshold loss_rate : Decimal) (exponent : ℤ)
      → Charge divergence
      → Charge threshold
      → Charge loss_rate
      → Ensures Charge (penalty c divergence threshold loss_rate exponent)
  unfolding penalty
  penalty-Ensures divergence threshold loss_rate exponent hd ht hl =
      Ensures-bind Charge Charge (c.divide_op divergence threshold) _
        (Ensures-Charge _ (divide_traps divergence threshold hd.0 ht.0)
          (divide_nonneg divergence threshold hd ht))
        λ ratio hr.
          Ensures-bind Charge Charge (c.power_op ratio exponent) _
            (Ensures-Charge _ (power_traps ratio exponent hr.0) (power_nonneg ratio exponent hr))
            λ raised hp.
              Ensures-Charge _ (multiply_traps loss_rate raised hl.0 hp.0)
                (multiply_nonneg loss_rate raised hl hp)

  -- On a divergence in [0, 1], a positive threshold, a rate that is not negative and an exponent
  -- above one, the loss is finite and not negative, or a trapped signal.
  pub superlinear_loss-Ensures :
      (divergence threshold loss_rate : Decimal) (exponent : ℤ)
      → Charge divergence
      → Le divergence one_dec
      → is_finite threshold ≡ true
      → ¬ Le threshold zero_dec
      → Charge loss_rate
      → pos 2 ≤ℤ exponent
      → Ensures Charge (superlinear_loss c divergence threshold loss_rate exponent)
  unfolding superlinear_loss
  superlinear_loss-Ensures divergence threshold loss_rate exponent hd below ft ht hl he =
      Ensures-finite Charge _ divergence hd.0 (
        Ensures-finite Charge _ threshold ft (
          Ensures-finite Charge _ loss_rate hl.0 (
            Ensures-require Charge _ _
              (rw (Le→not_lt_dec divergence zero_dec hd.1, Le→not_lt_dec one_dec divergence below)
                refl)
              (Ensures-positive Charge _ threshold ht (
                Ensures-Nonneg Charge _ loss_rate hl.1
                  (Ensures-require Charge _ _ (ground arith) branches))))))
    where
      branches : Ensures Charge (
          if le_dec divergence threshold
          then ok zero_dec
          else penalty c divergence threshold loss_rate exponent)
      branches = elim (Bool-cases (le_dec divergence threshold)) [
        | inl e ↦ rw e (refl, Le-refl zero_dec)
        | inr e ↦ rw e (
            penalty-Ensures divergence threshold loss_rate exponent hd
              (ft, not_Le→Ge threshold zero_dec ht) hl)
      ]

  reduced_charge-Ensures :
      (decayed loss coupled_loss : Decimal)
      → Finite decayed
      → Finite loss
      → Finite coupled_loss
      → Ensures Finite (reduced_charge c decayed loss coupled_loss)
  unfolding reduced_charge
  reduced_charge-Ensures decayed loss coupled_loss fd fl fc =
      Ensures-bind Finite Finite (c.subtract_op decayed loss) _
        (Ensures-Traps _ (subtract_traps decayed loss fd fl))
        λ after_loss fa. Ensures-Traps _ (subtract_traps after_loss coupled_loss fa fc)

  -- A local reduction of finite charges that are not negative only reduces: the effective charge lies
  -- in [0, decayed] and below the maximum, or the reduction ends in a trapped signal.
  pub local_effective_charge-Ensures :
      (decayed loss coupled_loss maximum : Decimal)
      → Charge decayed
      → Charge loss
      → Charge coupled_loss
      → Charge maximum
      → Ensures
          (λ d. (is_finite d ≡ true) × Nonneg d × Le d decayed × Le d maximum)
          (local_effective_charge c decayed loss coupled_loss maximum)
  unfolding local_effective_charge
  local_effective_charge-Ensures decayed loss coupled_loss maximum hd hl hc hm =
      let P = λ (d : Decimal). (is_finite d ≡ true) × Nonneg d × Le d decayed × Le d maximum in
      Ensures-finite P _ decayed hd.0 (
        Ensures-finite P _ loss hl.0 (
          Ensures-finite P _ coupled_loss hc.0 (
            Ensures-finite P _ maximum hm.0 (
              Ensures-Nonneg P _ decayed hd.1 (
                Ensures-Nonneg P _ loss hl.1 (
                  Ensures-Nonneg P _ coupled_loss hc.1 (
                    Ensures-Nonneg P _ maximum hm.1 (
                      Ensures-bind (λ d. is_finite d ≡ true) P
                        (reduced_charge c decayed loss coupled_loss) _
                        (reduced_charge-Ensures decayed loss coupled_loss hd.0 hl.0 hc.0)
                        λ reduced f. clamped reduced f))))))))
    where
      clamped :
          (reduced : Decimal)
          → is_finite reduced ≡ true
          → let d = min_dec (min_dec maximum decayed) (max_dec zero_dec reduced) in
            (is_finite d ≡ true) × Nonneg d × Le d decayed × Le d maximum
      clamped reduced f =
          let inner = min_dec maximum decayed in
          let outer = max_dec zero_dec reduced in
          let below = min_dec-le_left inner outer in
          let inner_charge : Charge inner = min_dec-elim maximum decayed Charge hm hd in
          let within = clamp-Within inner reduced inner_charge f in
          (
            within.0,
            within.1,
            Le-trans _ inner decayed below (min_dec-le_right maximum decayed),
            Le-trans _ inner maximum below (min_dec-le_left maximum decayed),
          )
