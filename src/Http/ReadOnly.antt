-- ===== src/Http/ReadOnly.antt =====
-- crates/api-http/src/lib.rs, `dispatch`: the methods that change nothing.
use Prim.Native.String.{String}
use forkyard.Base.{ℕ, List, true, some, ◌≡◌, refl}
use forkyard.Http.Codec.{Codec, TxEnv}
use forkyard.Http.Errors.{Reasons}
use forkyard.Http.Every.{Every}
use forkyard.Http.Json.{Value}
use forkyard.Http.Methods.{RpcMethod, parse}
use forkyard.Http.ReadArms.{AnyError, is_read, reads-Every}
use forkyard.Http.Receipts.{Table}
use forkyard.Http.Surface.{dispatch, dispatched}
use forkyard.Sessions.Harmless.{
  Harmless, block_env-Harmless, basic-Harmless, storage-Harmless, code-Harmless, call-Harmless,
  estimate_gas-Harmless,
}
use forkyard.Sessions.Requests.{Request}

-- The requests that read; what they read may be cached in the session.
abbrev pub Reading : {B : Type 0} → Request B TxEnv → Type 0
Reading (Request.session_block_env id) = Unit
Reading (Request.session_state id) = Unit
Reading (Request.basic id address) = Unit
Reading (Request.storage id address key) = Unit
Reading (Request.code id address) = Unit
Reading (Request.simulate id tx) = Unit
Reading (Request.call id tx) = Unit
Reading (Request.estimate_gas id tx) = Unit
Reading _ = ⊥

abbrev pub Same : (Table → Table) → Type 0
Same f = (table : Table) → f table ≡ table

module _ (B E W : Type 0) {Envelope X I : Type 0} (codec : Codec Envelope X) (reasons : Reasons I)
    (chain_id : ℕ) where
  -- Whatever the manager answers in between, each request of a call of a method that reads is one that
  -- the manager meets with jobs that read alone, and the side table stays as it is.
  pub dispatch-Harmless :
      (id : ℕ) (name : String) (method : RpcMethod) (params : List Value)
      → parse name ≡ some method
      → is_read method ≡ true
      → Every
          (Harmless B E W TxEnv X I)
          Same
          AnyError
          (dispatch codec reasons chain_id id name params)
  unfolding dispatch dispatched
  dispatch-Harmless id name method params p r = rw p (
      reads-Every codec reasons (Harmless B E W TxEnv X I) Same id
        (
          block_env-Harmless B E W TxEnv X I id,
          basic-Harmless B E W TxEnv X I id,
          storage-Harmless B E W TxEnv X I id,
          code-Harmless B E W TxEnv X I id,
          call-Harmless B E W TxEnv X I id,
          estimate_gas-Harmless B E W TxEnv X I id,
        )
        (λ table. refl) chain_id method params r)
