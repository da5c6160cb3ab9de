-- ===== src/FeeBump/Accepts.antt =====
-- Which fee bumps the constructor accepts, and what it raises for the others.
use py_stellar_base.Prelude.{
  ℕ, ◌^◌, ◌≤◌, ◌≡◌, ◌⊎◌, inl, inr, true, false, ◌==◌, ==_iff, Bool-cases, length, refl, arith,
}
use py_stellar_base.Prelude.Int.{ℤ, pos, negsuc, ltb_ℤ, ◌<ℤ◌, ltb_ℤ_iff}
use py_stellar_base.Error.{ok, err, value_error, zero_division}
use py_stellar_base.Float.Exact.{is_below-true_divide}
use py_stellar_base.StrKey.{Crc16}
use py_stellar_base.MuxedAccount.{MuxedAccount}
use py_stellar_base.Transaction.{Source}
use py_stellar_base.Envelope.{TransactionEnvelope}
use py_stellar_base.FeeBump.{
  minimum_fee, times, below_quotient, too_low, parse_fee_source, fee_bump_transaction,
}

-- The fee rate that is asked for, and the least that the network takes.
pub record IsEnough (base_fee : ℤ) (te : TransactionEnvelope) : Type 0 where
  pub v1 : te.transaction.v1 ≡ true
  pub some_operation : 1 ≤ length te.transaction.operations
  pub rate : ¬ (times base_fee (length te.transaction.operations) <ℤ te.transaction.fee)
  pub minimum : ¬ (base_fee <ℤ pos minimum_fee)

abbrev pub IsTooLow : ℤ → TransactionEnvelope → Type 0
IsTooLow base_fee te =
    (te.transaction.v1 ≡ true)
    × (1 ≤ length te.transaction.operations)
    × ((times base_fee (length te.transaction.operations) <ℤ te.transaction.fee)
        ⊎ (base_fee <ℤ pos minimum_fee))

-- A base fee that the float of the inner rate is above is too low, and one that it is not above is enough.
low_rate :
    (b fee : ℤ) (n : ℕ)
    → 1 ≤ n
    → fee <ℤ pos (2 ^ 53)
    → below_quotient b fee n ≡ true
    → (times b n <ℤ fee) ⊎ (b <ℤ pos minimum_fee)
unfolding below_quotient times
low_rate (pos b) (pos a) n p small h =
    inl (ground (arith, is_below-true_divide b a n (omega arith) p))
low_rate (pos b) (negsuc a) n p small h = cc
low_rate (negsuc b) fee n p small h = inr (omega arith)

high_rate :
    (b fee : ℤ) (n : ℕ)
    → 1 ≤ n
    → fee <ℤ pos (2 ^ 53)
    → below_quotient b fee n ≡ false
    → ¬ (b <ℤ pos minimum_fee)
    → ¬ (times b n <ℤ fee)
unfolding below_quotient times
high_rate (pos b) (pos a) n p small h m q =
    ground (arith, is_below-true_divide b a n (omega arith) p)
high_rate (pos b) (negsuc a) n p small h m q = omega arith
high_rate (negsuc b) fee n p small h m q = m (omega arith)

-- Each outcome of the constructor with its condition, for a fee source that parses and an inner fee below 2 ^ 53,
-- as every uint32 is. A v1 transaction is
-- taken if its base fee pays the inner rate and the minimum, a lower one is a ValueError, no operations are a
-- ZeroDivisionError, and a v0 transaction is a ValueError.
pub fee_bump_transaction-accepts :
    (crc : Crc16) (fee_source : Source) (m : MuxedAccount) (base_fee : ℤ) (te : TransactionEnvelope)
    → parse_fee_source crc fee_source ≡ ok m
    → te.transaction.fee <ℤ pos (2 ^ 53)
    → (IsEnough base_fee te
        × (fee_bump_transaction crc fee_source base_fee te
            ≡ ok (record { fee_source = m; base_fee = base_fee; inner_transaction_envelope = te })))
      ⊎ ((te.transaction.v1 ≡ false)
          × (fee_bump_transaction crc fee_source base_fee te ≡ err value_error))
      ⊎ ((te.transaction.v1 ≡ true)
          × (length te.transaction.operations ≡ 0)
          × (fee_bump_transaction crc fee_source base_fee te ≡ err zero_division))
      ⊎ (IsTooLow base_fee te × (fee_bump_transaction crc fee_source base_fee te ≡ err value_error))
unfolding fee_bump_transaction too_low
fee_bump_transaction-accepts crc fee_source m base_fee te h small =
    let n = length te.transaction.operations in
    elim (Bool-cases te.transaction.v1) [
      | inr v0 ↦ inr (inl (v0, rw v0 refl))
      | inl v1 ↦ elim (Bool-cases (n == 0)) [
        | inl z ↦ inr (inr (inl (v1, (==_iff n 0).0 z, rw (v1, h, z) refl)))
        | inr z ↦
            (let some : 1 ≤ n = ground arith in
              elim (Bool-cases (below_quotient base_fee te.transaction.fee n)) [
                | inl l ↦ inr (
                    inr (
                      inr (
                        (v1, some, low_rate base_fee te.transaction.fee n some small l),
                        rw (v1, h, z, l) refl,
                      )))
                | inr l ↦ elim (Bool-cases (ltb_ℤ base_fee (pos minimum_fee))) [
                  | inl k ↦ inr (
                      inr (
                        inr (
                          (v1, some, inr ((ltb_ℤ_iff base_fee (pos minimum_fee)).0 k)),
                          rw (v1, h, z, l, k) refl,
                        )))
                  | inr k ↦
                      (let enough : ¬ (base_fee <ℤ pos minimum_fee) =
                          λ p. ground (arith, (ltb_ℤ_iff base_fee (pos minimum_fee)).1 p) in
                        inl (
                          record {
                            v1 = v1;
                            some_operation = some;
                            rate = high_rate base_fee te.transaction.fee n some small l enough;
                            minimum = enough;
                          },
                          rw (v1, h, z, l, k) refl,
                        ))
                ]
              ])
      ]
    ]
