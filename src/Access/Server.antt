-- ===== src/Access/Server.antt =====
-- The server evaluates without reading documents. What that may cost: never a wrong denial.
use mindoo_db.Base.{◌≡◌, refl, true, false, ◌||◌, List, [], ◌∷◌, any, arith}
use mindoo_db.Access.{AclRuleDoc}
use mindoo_db.Access.Values.{Values}
use mindoo_db.Access.Evaluate.{
  EvaluateAccessInput, is_tier2, with_fields_pass, candidate_rules, evaluate_access,
}
use mindoo_db.Access.Verdict.{denies, allows, allow_left, evaluate_access-verdict}

module _ (V : Values) where
  open V use {Num}

  abbrev pub on_server : EvaluateAccessInput V → EvaluateAccessInput V
  on_server input = record input { is_server = true }

  abbrev pub on_client : EvaluateAccessInput V → EvaluateAccessInput V
  on_client input = record input { is_server = false }

  -- On the server fewer rules deny; an allow rule applies there, or is left to the client.
  client-covers :
      (input : EvaluateAccessInput V) (rs : List (AclRuleDoc Num))
      → (any (denies V (on_server input)) rs ≡ true → any (denies V (on_client input)) rs ≡ true)
        × (any (allows V (on_client input)) rs ≡ true
            → (any (allows V (on_server input)) rs || any (allow_left V (on_server input)) rs)
              ≡ true)
        × (any (allow_left V (on_client input)) rs ≡ false)
  unfolding with_fields_pass
  client-covers input [] = (λ h. h, λ h. cc, refl)
  client-covers input (r ∷ rs) =
      let (d, a, l) = client-covers input rs in (λ h. ground arith, λ h. ground arith, ground arith)

  -- Whatever the server denies, the client denies on the same state: the server never denies what
  -- a client would have allowed.
  pub server_denial :
      (input : EvaluateAccessInput V)
      → (evaluate_access V (on_server input)).allowed ≡ false
      → (evaluate_access V (on_client input)).allowed ≡ false
  unfolding candidate_rules
  server_denial input h =
      let (d, a, l) = client-covers input (candidate_rules V input) in
      ground (
        arith,
        evaluate_access-verdict V (on_server input),
        evaluate_access-verdict V (on_client input),
      )

  same-without-tier2 :
      (input : EvaluateAccessInput V) (rs : List (AclRuleDoc Num))
      → any (is_tier2 V) rs ≡ false
      → (any (denies V (on_server input)) rs ≡ any (denies V (on_client input)) rs)
        × (any (allows V (on_server input)) rs ≡ any (allows V (on_client input)) rs)
        × (any (allow_left V (on_server input)) rs ≡ any (allow_left V (on_client input)) rs)
  same-without-tier2 input [] h = (refl, refl, refl)
  same-without-tier2 input (r ∷ rs) h = ground (arith, same-without-tier2 input rs)

  -- Where no candidate rule looks at the document, server and client agree.
  pub server_agrees :
      (input : EvaluateAccessInput V)
      → any (is_tier2 V) (candidate_rules V input) ≡ false
      → (evaluate_access V (on_server input)).allowed
        ≡ (evaluate_access V (on_client input)).allowed
  unfolding candidate_rules
  server_agrees input h = ground (
    arith,
    same-without-tier2 input (candidate_rules V input) h,
    evaluate_access-verdict V (on_server input),
    evaluate_access-verdict V (on_client input),
  )
