-- ===== src/Runtime/Authorize.antt =====
-- `authorize_remote`: what an answer says, and that an event is authorized once.
use cross_agent_chat.Prelude.{
  Bool-cases, All, ℕ, ◌≡◌, refl, sym, ap, ◌∙◌, inl, inr, Bool, true, false, none, some, List, arith,
}
use cross_agent_chat.Core.{Result, err, ok, Env}
use cross_agent_chat.Core.Intent.{Intent}
use cross_agent_chat.IntentStore.{Disk, Delivery, intents, claim_remote_authorization}
use cross_agent_chat.IntentStore.Refinement.{Call, Admits, run}
use cross_agent_chat.IntentStore.Claim.{NotPending, claim_once}
use cross_agent_chat.Json.{Json, obj, get, as_str}
use cross_agent_chat.Text.{Text, codes, ◌==◌}
use cross_agent_chat.Runtime.{answer_status, authorization, authorize_remote}

-- What an answer says of its event.
unfoldable pub says : Text → Json → Bool
says status (obj fs) = elim (as_str (get (codes "status") fs)) [
  | none ↦ false
  | some s ↦ s == status
]
says status _ = false

says-authorization :
    (claimed : Bool) (event : Text) (d : Delivery)
    → says (codes "AUTHORIZED") (authorization claimed event d) ≡ claimed
unfolding says authorization answer_status get as_str ◌==◌
says-authorization true event d = refl
says-authorization false event d = refl

module _ (env : Env) where
  authorize_remote-claim :
      (now : ℕ) (event : Text) (d : Delivery) (disk disk' : Disk) (answer : Json)
      → authorize_remote env now event d disk ≡ ok (answer, disk')
      → claim_remote_authorization env now event d disk
        ≡ ok (says (codes "AUTHORIZED") answer, disk')
  unfolding authorize_remote
  authorize_remote-claim now event d disk disk' answer h =
      by_claim (claim_remote_authorization env now event d disk) refl
    where
      by_claim :
          (m : Result (Bool × Disk))
          → claim_remote_authorization env now event d disk ≡ m
          → claim_remote_authorization env now event d disk
            ≡ ok (says (codes "AUTHORIZED") answer, disk')
      by_claim (err e) q = absurd (ground arith)
      by_claim (ok (claimed, kept)) q =
          let f : authorization claimed event d ≡ answer = ground arith in
          let g : kept ≡ disk' = ground arith in
          let s : claimed ≡ says (codes "AUTHORIZED") answer =
            sym (says-authorization claimed event d) ∙ ap (says (codes "AUTHORIZED")) f in
          q ∙ cc (s, g)

  -- An event is answered AUTHORIZED at most once: after such an answer, and any further calls of
  -- the store in which no caller records `PENDING`, no answer for the event says so, whatever
  -- delivery is asked for.
  pub authorize_remote_once :
      (now later : ℕ) (event : Text) (d d' : Delivery) (disk disk₁ disk₂ : Disk)
      (answer answer' : Json) (rows : List Intent) (cs : List Call)
      → intents env disk ≡ ok rows
      → authorize_remote env now event d disk ≡ ok (answer, disk₁)
      → says (codes "AUTHORIZED") answer ≡ true
      → All (Admits NotPending) cs
      → authorize_remote env later event d' (run env cs disk₁) ≡ ok (answer', disk₂)
      → says (codes "AUTHORIZED") answer' ≡ false
  authorize_remote_once now later event d d' disk disk₁ disk₂ answer answer' rows cs reads first
        said a second =
      elim (Bool-cases (says (codes "AUTHORIZED") answer')) [
        | inl e ↦ absurd (
            claim_once env now later event d d' disk disk₁ disk₂ rows cs reads
              (authorize_remote-claim now event d disk disk₁ answer first
                ∙ ap (λ (b : Bool). ok (b, disk₁)) said)
              a
              (authorize_remote-claim later event d' (run env cs disk₁) disk₂ answer' second
                ∙ ap (λ (b : Bool). ok (b, disk₂)) e))
        | inr e ↦ e
      ]
