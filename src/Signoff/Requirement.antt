-- ===== src/Signoff/Requirement.antt =====
-- _cdc_requirement of src/mind3/core/verifier.py: when a clock-domain analysis is required.
use mind.Prelude.{
  String, Bool, true, false, not, List, [], ◌∷◌, Option, none, some, ◌≡◌, refl, subst, ◌↔◌, ◌≢◌,
  ◌⊎◌, inl, inr, arith, if◌then◌else◌,
}

-- The parts of the contract that the decision reads.
pub record CdcContract : Type 0 where
  pub async_inputs : Option (List String)
  -- the reset, if any, by its `synchronous` flag
  pub reset_synchronous : Option Bool

pub data Reason : Type 0 where
  explicit_opt_out no_contract async_inputs_undeclared async_reset : Reason
  async_inputs_declared contract_declares_no_cdc : Reason

has_async_reset : Option Bool → Bool
has_async_reset none = false
has_async_reset (some synchronous) = not synchronous

after_reset : List String → Bool × Reason
after_reset [] = (false, contract_declares_no_cdc)
after_reset (a ∷ inputs) = (true, async_inputs_declared)

contract_requirement : CdcContract → Bool × Reason
unfolding has_async_reset after_reset
contract_requirement k = elim k.async_inputs [
  | none ↦ (true, async_inputs_undeclared)
  | some inputs ↦
      if has_async_reset k.reset_synchronous then (true, async_reset) else after_reset inputs
]

unfoldable pub cdc_requirement : Bool → Option CdcContract → Bool × Reason
unfolding contract_requirement
cdc_requirement require_cdc contract =
    if require_cdc
    then elim contract [ none ↦ (true, no_contract) | some k ↦ contract_requirement k ]
    else (false, explicit_opt_out)

-- The contract declares an empty list of asynchronous inputs and no asynchronous reset.
abbrev pub DeclaresNoCdc : CdcContract → Type 0
DeclaresNoCdc k = (k.async_inputs ≡ some []) × (k.reset_synchronous ≢ some false)

contract_waives :
    (inputs : Option (List String)) (reset : Option Bool)
    → ((contract_requirement (record { async_inputs = inputs; reset_synchronous = reset })).0
        ≡ false)
      ↔ ((inputs ≡ some []) × (reset ≢ some false))
unfolding contract_requirement
contract_waives none reset = grind arith
contract_waives (some []) reset = grind arith
contract_waives (some (a ∷ l)) reset = grind arith

-- The clock-domain analysis is waived exactly where the caller opted out, or where a contract is
-- given that declares no asynchronous input and no asynchronous reset.
pub cdc_requirement-waived_iff :
    (require_cdc : Bool) (contract : Option CdcContract)
    → ((cdc_requirement require_cdc contract).0 ≡ false)
      ↔ ((require_cdc ≡ false) ⊎ ((k : CdcContract) × (contract ≡ some k) × DeclaresNoCdc k))
unfolding cdc_requirement
cdc_requirement-waived_iff false contract = (λ h. inl refl, λ h. refl)
cdc_requirement-waived_iff true none = (λ h. cc, λ h. elim h [ inl p ↦ cc | inr (k, p, q) ↦ cc ])
cdc_requirement-waived_iff true (some k) =
    let w = contract_waives k.async_inputs k.reset_synchronous in
    (
      λ h. inr (k, refl, w.0 h),
      λ h. elim h [
        | inl p ↦ cc
        | inr (j, p, q) ↦ let e : j ≡ k = cc in w.1 (subst DeclaresNoCdc e q)
      ],
    )
