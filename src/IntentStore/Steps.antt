-- ===== src/IntentStore/Steps.antt =====
-- The operations of the store as steps from the rows before to the rows after.
use cross_agent_chat.Prelude.{
  eqb, if◌then◌else◌, length, keep, any, ℕ, ◌≡◌, Bool, false, Option, List, [], ◌∷◌, ◌++◌, arith,
}
use cross_agent_chat.Core.{Status, remote_authorized, resolved_by_owner, ok, Env}
use cross_agent_chat.Core.Intent.{Intent}
use cross_agent_chat.IntentStore.{
  Disk, Delivery, blocks, claims, has_id, set_status, require_one, intents, store,
  refuse_unresolved, new_intent, check_delivery, event_identifier, begin_identity,
  claim_remote_authorization, mark, resolve_row, resolve_by_owner,
}
use cross_agent_chat.Text.{Text}

module _ (env : Env) (disk : Disk) (rows : List Intent) (reads : intents env disk ≡ ok rows) where
  -- What a successful `begin_identity` found, and what it wrote.
  pub begin_identity-ok :
      (now : ℕ) (fresh : Text) (event_id : Option Text) (d : Delivery) (event : Text) (disk' : Disk)
      → begin_identity env now fresh event_id d disk ≡ ok (event, disk')
      → (event_identifier env fresh event_id ≡ ok event)
        × (check_delivery env d ≡ ok tt)
        × (any (has_id event) rows ≡ false)
        × (refuse_unresolved env now (keep (blocks d) rows) ≡ ok tt)
        × (disk' ≡ store env (rows ++ new_intent env now event d ∷ []) disk)
  unfolding begin_identity
  begin_identity-ok now fresh event_id d event disk' h = ground arith

  pub claim_remote_authorization-ok :
      (now : ℕ) (event : Text) (d : Delivery) (disk' : Disk) (claimed : Bool)
      → claim_remote_authorization env now event d disk ≡ ok (claimed, disk')
      → (claimed ≡ eqb (length (keep (claims event d) rows)) 1)
        × (disk' ≡ (
            if claimed
            then store env (set_status event remote_authorized (env.iso_time now) rows) disk
            else disk))
  unfolding claim_remote_authorization
  claim_remote_authorization-ok now event d disk' claimed h = ground arith

  pub mark-ok :
      (now : ℕ) (event : Text) (s : Status) (disk' : Disk)
      → mark env now event s disk ≡ ok disk'
      → (i : Intent) × (require_one rows event ≡ ok i)
        × (disk' ≡ store env (set_status event s (env.iso_time now) rows) disk)
  unfolding mark
  mark-ok now event s disk' h = ground arith

  pub resolve_by_owner-ok :
      (now : ℕ) (event : Text) (prior : Status) (disk' : Disk)
      → resolve_by_owner env now event disk ≡ ok (prior, disk')
      → (i : Intent) × (writes : Bool) × (require_one rows event ≡ ok i)
        × (resolve_row env now event i ≡ ok writes)
        × (prior ≡ i.status)
        × (disk' ≡ (
            if writes
            then store env (set_status event resolved_by_owner (env.iso_time now) rows) disk
            else disk))
  unfolding resolve_by_owner
  resolve_by_owner-ok now event prior disk' h = ground arith
