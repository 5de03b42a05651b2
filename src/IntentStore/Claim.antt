-- ===== src/IntentStore/Claim.antt =====
-- `claim_remote_authorization`: what it decides, and that an event is claimed once.
use cross_agent_chat.Prelude.{
  eqb, if◌then◌else◌, Option-cases, length, keep, All, ℕ, ◌≡◌, refl, sym, ◌∙◌, ◌≢◌, inl, inr, Bool,
  true, false, none, some, List, arith,
}
use cross_agent_chat.Core.{Status, pending, remote_authorized, ok, Env}
use cross_agent_chat.Core.Intent.{Intent}
use cross_agent_chat.IntentStore.{
  Disk, distinct, event_ids, is_pending, Delivery, claims, set_status, intents, store,
  claim_remote_authorization,
}
use cross_agent_chat.IntentStore.Reading.{intents-store, intents-Wellformed}
use cross_agent_chat.IntentStore.Ledger.{set_status-Wellformed}
use cross_agent_chat.IntentStore.Rows.{row_of, restamp, row_of-set_status, length-claims}
use cross_agent_chat.IntentStore.Refinement.{Call, Admits, run, Reach, here, next, run-Reach}
use cross_agent_chat.Text.{Text, ==_refl}
use cross_agent_chat.IntentStore.Steps.{claim_remote_authorization-ok}
use cross_agent_chat.IntentStore.History.{Allowed, Follows, Step-Follows}

-- Whether an event's row is the exact pending intent of a delivery.
unfoldable pub claimable : Text → Delivery → List Intent → Bool
claimable event d rows = elim (row_of event rows) [ none ↦ false | some i ↦ claims event d i ]

claims-claimable :
    (event : Text) (d : Delivery) (rows : List Intent)
    → distinct (event_ids rows) ≡ true
    → eqb (length (keep (claims event d) rows)) 1 ≡ claimable event d rows
unfolding claimable
claims-claimable event d rows w = ground (arith, length-claims event d rows w)

-- Callers never record `PENDING`.
abbrev pub NotPending : Text → Status → Type 0
NotPending event s = s ≢ pending

module _ (env : Env) where
  read_back :
      (now : ℕ) (event : Text) (claimed : Bool) (disk : Disk) (rows : List Intent)
      → intents env disk ≡ ok rows
      → intents env (
          if claimed
          then store env (set_status event remote_authorized (env.iso_time now) rows) disk
          else disk)
        ≡ ok (if claimed then set_status event remote_authorized (env.iso_time now) rows else rows)
  read_back now event true disk rows reads = intents-store env _ disk (
      set_status-Wellformed env now event remote_authorized rows
        (intents-Wellformed env disk rows reads))
  read_back now event false disk rows reads = reads

  -- A claim that is answered says whether the event's row is exactly the pending intent that the
  -- request names; if it is, that row becomes authorized, and otherwise the store is as before.
  pub claim_remote_authorization_lem :
      (now : ℕ) (event : Text) (d : Delivery) (disk disk' : Disk) (rows : List Intent)
      (claimed : Bool)
      → intents env disk ≡ ok rows
      → claim_remote_authorization env now event d disk ≡ ok (claimed, disk')
      → (claimed ≡ claimable event d rows)
        × (intents env disk'
            ≡ ok (
                if claimed
                then set_status event remote_authorized (env.iso_time now) rows
                else rows))
  claim_remote_authorization_lem now event d disk disk' rows claimed reads h =
      let w = intents-Wellformed env disk rows reads in
      let (decided, written) =
        claim_remote_authorization-ok env disk rows reads now event d disk' claimed h in
      (
        decided ∙ claims-claimable event d rows w.unique,
        rw written (read_back now event claimed disk rows reads),
      )

  Follows-NotPending :
      (event : Text) (i i' : Intent)
      → i.status ≢ pending
      → Follows NotPending event i i'
      → i'.status ≢ pending
  Follows-NotPending event i i' n (inl e) = rw e n
  Follows-NotPending event i i' n (inr moved) = go moved.moves
    where
      go : Allowed NotPending event i.status i'.status → i'.status ≢ pending
      go (inl (p, _)) = absurd (n p)
      go (inr (inl (_, p))) = λ q. cc
      go (inr (inr m)) = m

  Reach-NotPending :
      (rows rows' : List Intent) (event : Text) (i : Intent)
      → row_of event rows ≡ some i
      → i.status ≢ pending
      → Reach env NotPending rows rows'
      → (i' : Intent) × (row_of event rows' ≡ some i') × (i'.status ≢ pending)
  Reach-NotPending rows rows' event i found n here = (i, found, n)
  Reach-NotPending rows rows'' event i found n (next {rows'} r s) =
      let (i₁, found₁, n₁) = Reach-NotPending rows rows' event i found n r in
      let (i₂, found₂, follows) = Step-Follows env NotPending rows' rows'' event i₁ s found₁ in
      (i₂, found₂, Follows-NotPending event i₁ i₂ n₁ follows)

  unclaimable :
      (event : Text) (d : Delivery) (rows : List Intent) (i : Intent)
      → row_of event rows ≡ some i
      → i.status ≢ pending
      → claimable event d rows ≡ false
  unfolding claimable claims is_pending
  unclaimable event d rows i found n = ground arith

  authorized_row :
      (now : ℕ) (event : Text) (d : Delivery) (rows : List Intent)
      → claimable event d rows ≡ true
      → (i : Intent) × (row_of event (set_status event remote_authorized (env.iso_time now) rows)
          ≡ some i)
        × (i.status ≡ remote_authorized)
  unfolding claimable
  authorized_row now event d rows h = elim (Option-cases (row_of event rows)) [
    | inl e ↦ absurd (ground arith)
    | inr (i, e) ↦
        (restamp remote_authorized (env.iso_time now) i, rw (row_of-set_status, ==_refl, e), refl)
  ]

  -- An event is authorized at most once: after a claim that succeeded, and any further calls in
  -- which no caller records `PENDING`, no claim of the event succeeds, whatever it names.
  pub claim_once :
      (now later : ℕ) (event : Text) (d d' : Delivery) (disk disk₁ disk₂ : Disk)
      (rows : List Intent) (cs : List Call)
      → intents env disk ≡ ok rows
      → claim_remote_authorization env now event d disk ≡ ok (true, disk₁)
      → All (Admits NotPending) cs
      → claim_remote_authorization env later event d' (run env cs disk₁) ≢ ok (true, disk₂)
  claim_once now later event d d' disk disk₁ disk₂ rows cs reads first a second =
      let (can, reads₁) =
        claim_remote_authorization_lem now event d disk disk₁ rows true reads first in
      let (i, found, authorized) = authorized_row now event d rows (sym can) in
      let (rows₂, reads₂, r) = run-Reach env NotPending cs disk₁ _ a reads₁ in
      let (i', found', n) = Reach-NotPending _ rows₂ event i found (λ p. cc (authorized, p)) r in
      let (can', _) =
        claim_remote_authorization_lem later event d' _ disk₂ rows₂ true reads₂ second in
      cc (can', unclaimable event d' rows₂ i' found' n)
