-- ===== src/Http/Scope.antt =====
-- crates/api-http/src/lib.rs, `dispatch`: whose session a call is about.
use Prim.Native.String.{String}
use forkyard.Base.{
  ℕ, List, Bool, true, false, Option, none, some, ◌≡◌, ◌≢◌, refl, ◌⊎◌, inl, inr, arith, ℕ_discrete,
  Option-cases,
}
use forkyard.Base.Maps.{get-insert, get-insert_ne, get-remove_ne}
use forkyard.Engine.Types.{AccountInfo, default_account}
use forkyard.Http.Codec.{Codec, Legacy, TxEnv}
use forkyard.Http.Errors.{Reasons}
use forkyard.Http.Every.{Every, try-Every, ask-Every, session_block_env-Every, to_u64-Every}
use forkyard.Http.Json.{Value}
use forkyard.Http.Methods.{
  RpcMethod, parse, eth_chain_id, eth_block_number, eth_gas_price, eth_get_balance,
  eth_get_transaction_count, eth_call, eth_get_storage_at, eth_get_code, eth_send_raw_transaction,
  eth_send_raw_transaction_sync, eth_get_transaction_receipt, eth_estimate_gas,
  forkyard_set_balance, forkyard_set_storage_at, forkyard_fork_from, forkyard_snapshot,
  forkyard_discard,
}
use forkyard.Http.Params.{or_default, parse_address, parse_word}
use forkyard.Http.ReadArms.{AnyError, Peeks, is_read, reads-Every}
use forkyard.Http.Receipts.{Table, get_state}
use forkyard.Http.SideTable.{inherit, forget, record_send}
use forkyard.Http.Surface.{dispatch, dispatched, handled}
use forkyard.Http.Transactions.{signed_tx, sent_tx}
use forkyard.Http.Writes
use forkyard.Sessions.Requests.{Request, Answered}

-- A request about one session; opening a session from nothing is about none.
abbrev pub About : {B : Type 0} → ℕ → Request B TxEnv → Type 0
About id Request.fork = ⊥
About id (Request.fork_at_block n) = ⊥
About id (Request.fork_from parent) = parent ≡ id
About id (Request.restore_at n state) = ⊥
About id (Request.resume snapshot) = ⊥
About id (Request.snapshot s) = s ≡ id
About id (Request.session_state s) = s ≡ id
About id (Request.session_block_env s) = s ≡ id
About id (Request.basic s address) = s ≡ id
About id (Request.set_account s address info) = s ≡ id
About id (Request.set_storage s address key value) = s ≡ id
About id (Request.storage s address key) = s ≡ id
About id (Request.code s address) = s ≡ id
About id (Request.simulate s tx) = s ≡ id
About id (Request.advance s tx) = s ≡ id
About id (Request.call s tx) = s ≡ id
About id (Request.estimate_gas s tx) = s ≡ id
About id (Request.discard s) = s ≡ id

-- Another session's entry stays as it is, or becomes a copy of this one's.
abbrev pub Spares : ℕ → (Table → Table) → Type 0
Spares id f =
    (table : Table) (other : ℕ)
    → other ≢ id
    → (get_state other (f table) ≡ get_state other table)
      ⊎ (get_state other (f table) ≡ get_state id table)

same-Spares : (id : ℕ) → Spares id (λ table. table)
same-Spares id table other n = inl refl

inherit-Spares : (id child : ℕ) → Spares id (inherit id child)
unfolding inherit
inherit-Spares id child table other n = elim (Option-cases (get_state id table)) [
  | inl none_there ↦ inl (ground arith)
  | inr (s, there) ↦ elim (ℕ_discrete child other) [
    | yes e ↦ inr (ground (arith, get-insert ℕ_discrete child other s table))
    | no ne ↦ inl (ground (arith, get-insert ℕ_discrete child other s table))
  ]
]

forget-Spares : (id : ℕ) → Spares id (forget id)
unfolding forget
forget-Spares id table other n = inl (get-remove_ne ℕ_discrete id other table n)

module _ {Envelope X : Type 0} (codec : Codec Envelope X) where
  record_send-Spares :
      (id : ℕ) (tx : Legacy) (sender : ℕ) (result : X) (real_start : ℕ)
      → Spares id (record_send codec id tx sender result real_start)
  unfolding record_send
  record_send-Spares id tx sender result real_start table other n =
      inl (get-insert_ne ℕ_discrete id other _ table n)

module _ (B : Type 0) {Envelope X I : Type 0} (codec : Codec Envelope X) (reasons : Reasons I)
    (id : ℕ) where
  set_balance-Every :
      (params : List Value)
      → Every (About {B = B} id) (Spares id) AnyError (Writes.set_balance codec reasons id params)
  unfolding Writes.set_balance
  set_balance-Every params =
      try-Every (About id) (Spares id) AnyError reasons (parse_address codec params 0) _ (λ e h. tt)
        (λ address.
          try-Every (About id) (Spares id) AnyError reasons (parse_word codec params 1) _
            (λ e h. tt)
            (λ balance.
              ask-Every (About id) (Spares id) AnyError reasons (Request.basic id address) _
                (λ e. tt) refl
                (λ found.
                  unfold Answered in
                  let info : AccountInfo B = or_default default_account found in
                  ask-Every (About id) (Spares id) AnyError reasons
                    (Request.set_account id address (record info { balance = balance })) _ (λ e. tt)
                    refl (λ w. tt))))

  set_storage_at-Every :
      (params : List Value)
      → Every
          (About {B = B} id)
          (Spares id)
          AnyError
          (Writes.set_storage_at codec reasons id params)
  unfolding Writes.set_storage_at
  set_storage_at-Every params =
      try-Every (About id) (Spares id) AnyError reasons (parse_address codec params 0) _ (λ e h. tt)
        (λ address.
          try-Every (About id) (Spares id) AnyError reasons (parse_word codec params 1) _
            (λ e h. tt)
            (λ key.
              try-Every (About id) (Spares id) AnyError reasons (parse_word codec params 2) _
                (λ e h. tt)
                (λ value.
                  ask-Every (About id) (Spares id) AnyError reasons
                    (Request.set_storage id address key value) _ (λ e. tt) refl (λ w. tt))))

  send-Every :
      (sync : Bool) (params : List Value)
      → Every
          (About {B = B} id)
          (Spares id)
          AnyError
          (Writes.send_raw_transaction codec reasons sync id params)
  unfolding Writes.send_raw_transaction Writes.kept Answered
  send-Every sync params =
      try-Every (About id) (Spares id) AnyError reasons (signed_tx codec params) _ (λ e h. tt)
        (λ signed.
          ask-Every (About id) (Spares id) AnyError reasons
            (Request.advance id (sent_tx signed.0 signed.1)) _ (λ e. tt) refl
            (λ result.
              session_block_env-Every (About id) (Spares id) AnyError reasons id _ refl (λ env.
                to_u64-Every (About id) (Spares id) AnyError reasons env.number
                  (Writes.kept codec reasons sync id signed.0 signed.1 result)
                  (record_send-Spares codec id signed.0 signed.1 result env.number, λ table. tt))))

  fork_from-Every :
      Every (About {B = B} id) (Spares id) AnyError (Writes.fork_from {X = X} reasons id)
  unfolding Writes.fork_from
  fork_from-Every =
      ask-Every (About id) (Spares id) AnyError reasons (Request.fork_from id) _ (λ e. tt) refl
        (λ child. (unfold Answered in inherit-Spares id child, λ table. tt))

  snapshot-Every :
      Every (About {B = B} id) (Spares id) AnyError (Writes.snapshot {X = X} reasons id)
  unfolding Writes.snapshot
  snapshot-Every =
      ask-Every (About id) (Spares id) AnyError reasons (Request.snapshot id) _ (λ e. tt) refl
        (λ info. tt)

  discard-Every : Every (About {B = B} id) (Spares id) AnyError (Writes.discard {X = X} reasons id)
  unfolding Writes.discard
  discard-Every =
      ask-Every (About id) (Spares id) AnyError reasons (Request.discard id) _ (λ e. tt) refl
        (λ w. (forget-Spares id, λ table. tt))

  About-Peeks : Peeks {B = B} id (About id)
  About-Peeks = (refl, λ a. refl, λ a k. refl, λ a. refl, λ tx. refl, λ tx. refl)

  read-Every :
      (chain_id : ℕ) (method : RpcMethod) (params : List Value)
      → is_read method ≡ true
      → Every
          (About {B = B} id)
          (Spares id)
          AnyError
          (handled codec reasons chain_id method id params)
  read-Every = reads-Every codec reasons (About id) (Spares id) id About-Peeks (same-Spares id)

  handled-Every :
      (chain_id : ℕ) (method : RpcMethod) (params : List Value)
      → Every
          (About {B = B} id)
          (Spares id)
          AnyError
          (handled codec reasons chain_id method id params)
  unfolding handled
  handled-Every chain_id forkyard_set_balance params = set_balance-Every params
  handled-Every chain_id forkyard_set_storage_at params = set_storage_at-Every params
  handled-Every chain_id forkyard_fork_from params = fork_from-Every
  handled-Every chain_id forkyard_snapshot params = snapshot-Every
  handled-Every chain_id forkyard_discard params = discard-Every
  handled-Every chain_id eth_send_raw_transaction params = send-Every false params
  handled-Every chain_id eth_send_raw_transaction_sync params = send-Every true params
  handled-Every chain_id eth_chain_id params = read-Every chain_id eth_chain_id params refl
  handled-Every chain_id eth_block_number params = read-Every chain_id eth_block_number params refl
  handled-Every chain_id eth_gas_price params = read-Every chain_id eth_gas_price params refl
  handled-Every chain_id eth_get_balance params = read-Every chain_id eth_get_balance params refl
  handled-Every chain_id eth_get_transaction_count params =
      read-Every chain_id eth_get_transaction_count params refl
  handled-Every chain_id eth_get_storage_at params =
      read-Every chain_id eth_get_storage_at params refl
  handled-Every chain_id eth_get_code params = read-Every chain_id eth_get_code params refl
  handled-Every chain_id eth_get_transaction_receipt params =
      read-Every chain_id eth_get_transaction_receipt params refl
  handled-Every chain_id eth_call params = read-Every chain_id eth_call params refl
  handled-Every chain_id eth_estimate_gas params = read-Every chain_id eth_estimate_gas params refl

  dispatched-Every :
      (chain_id : ℕ) (name : String) (method : Option RpcMethod) (params : List Value)
      → Every
          (About {B = B} id)
          (Spares id)
          AnyError
          (dispatched codec reasons chain_id name method id params)
  unfolding dispatched
  dispatched-Every chain_id name none params = tt
  dispatched-Every chain_id name (some method) params = handled-Every chain_id method params

  -- Whatever the manager answers in between, a call against a session asks the manager about no
  -- other session, and opens none but a branch of it; in the side table another session's entry
  -- stays as it is, or becomes a copy of this one's.
  pub dispatch-Every :
      (chain_id : ℕ) (name : String) (params : List Value)
      → Every
          (About {B = B} id)
          (Spares id)
          AnyError
          (dispatch codec reasons chain_id id name params)
  unfolding dispatch
  dispatch-Every chain_id name params = dispatched-Every chain_id name (parse name) params
