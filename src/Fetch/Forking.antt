-- ===== src/Fetch/Forking.antt =====
-- crates/fetch/src/lib.rs: opening a fork at a block of the upstream.
use Prim.Native.String.{String}
use forkyard.Base.{
  ℕ, Option, none, some, Result, ok, err, ◌>>=◌, ltb, ◌^◌, if◌then◌else◌, Bool-cases, inl, inr, ◌≡◌,
  refl, sym, ap, ◌∙◌, bind_ok, ok_inj, err_ok,
}
use forkyard.Engine.Types.{BlockEnv}

-- alloy's `BlockId`, as far as the source makes one.
pub data BlockId : Type 0 where
  latest : BlockId
  number : ℕ → BlockId

-- What the source reads of a header.
pub record Header : Type 0 where
  pub number : ℕ
  pub timestamp : ℕ
  pub base_fee_per_gas : Option ℕ
  pub gas_limit : ℕ

-- A provider for one URL: parsing the URL, asking for a block, and starting a backend and a batcher
-- that are pinned to a block, over the URL's upstream client; `F` is a fork.
pub record Provider (F : Type 0) : Type 0 where
  pub connect : Result String (Unit {0})
  pub get_block : BlockId → Result String (Option Header)
  pub spawn_backend : BlockId → BlockEnv → Result String F

abbrev pub fee_or_zero : Option ℕ → ℕ
fee_or_zero none = 0
fee_or_zero (some fee) = fee

unfoldable pub env_of_header : Header → BlockEnv
env_of_header header = record {
  number = header.number;
  timestamp = header.timestamp;
  basefee = fee_or_zero header.base_fee_per_gas;
  gas_limit = header.gas_limit;
}

unfoldable pub header_env : Option Header → Result String BlockEnv
unfolding env_of_header
header_env none = err "upstream RPC returned no block for the requested id"
header_env (some header) = ok (env_of_header header)

module _ {F : Type 0} (provider : Provider F) where
  unfoldable pub block_env_from_provider_at : BlockId → Result String BlockEnv
  unfolding header_env
  block_env_from_provider_at block = provider.get_block block >>= header_env

  unfoldable pub latest_block_env : Result String BlockEnv
  unfolding block_env_from_provider_at
  latest_block_env = provider.connect >>= λ _. block_env_from_provider_at latest

  -- The backend is pinned to the env's own block; a number of more than 64 bits panics, an error here.
  unfoldable pub fork_from_provider : BlockEnv → Result String F
  fork_from_provider block_env =
      if ltb block_env.number (2 ^ 64)
      then provider.spawn_backend (number block_env.number) block_env
      else err "Uint conversion error: value is too large for u64"

  unfoldable pub fork_impl : BlockId → Result String (F × BlockEnv)
  unfolding block_env_from_provider_at fork_from_provider
  fork_impl block = provider.connect >>= λ _. block_env_from_provider_at block >>= λ block_env.
      fork_from_provider block_env >>= λ fork. ok (fork, block_env)

  unfoldable pub fork_with_block_env : BlockEnv → Result String F
  unfolding fork_from_provider
  fork_with_block_env block_env = provider.connect >>= λ _. fork_from_provider block_env

  unfoldable pub fork : Result String (F × BlockEnv)
  unfolding fork_impl
  fork = fork_impl latest

  unfoldable pub fork_at : ℕ → Result String (F × BlockEnv)
  unfolding fork_impl
  fork_at block_number = fork_impl (number block_number)

  -- A block that is asked for by its number has that number.
  abbrev pub GivesNumber : Type 0
  GivesNumber =
      (n : ℕ) (header : Header)
      → provider.get_block (number n) ≡ ok (some header)
      → header.number ≡ n

  header_env_ok :
      (found : Option Header) (env : BlockEnv)
      → header_env found ≡ ok env
      → (header : Header) × (found ≡ some header) × (env_of_header header ≡ env)
  unfolding header_env
  header_env_ok none env h = absurd (cc)
  header_env_ok (some header) env h = (header, refl, ok_inj _ env h)

  spawned_pinned :
      (env : BlockEnv) (f : F)
      → fork_from_provider env ≡ ok f
      → provider.spawn_backend (number env.number) env ≡ ok f
  unfolding fork_from_provider
  spawned_pinned env f h = elim (Bool-cases (ltb env.number (2 ^ 64))) [
    | inl fits ↦ sym (rw fits refl) ∙ h
    | inr wide ↦ absurd (err_ok (rw wide at h))
  ]

  -- A fork is pinned to the block of the env that comes with it, which is made from a header.
  fork_impl_pinned :
      (block : BlockId) (f : F) (env : BlockEnv)
      → fork_impl block ≡ ok (f, env)
      → (header : Header) × (provider.get_block block ≡ ok (some header))
        × (env_of_header header ≡ env)
        × (provider.spawn_backend (number env.number) env ≡ ok f)
  unfolding fork_impl block_env_from_provider_at
  fork_impl_pinned block f env h =
      let (_, connected, h1) = bind_ok provider.connect _ h in
      let (env', made, h2) = bind_ok (block_env_from_provider_at block) _ h1 in
      let (f', spawned, h3) = bind_ok (fork_from_provider env') _ h2 in
      let (found, got, h4) = bind_ok (provider.get_block block) header_env made in
      let (header, there, e) = header_env_ok found env' h4 in
      let same = ok_inj (f', env') (f, env) h3 in
      let same_env : env' ≡ env = ap (λ p. p.1) same in
      (
        header,
        got ∙ ap ok there,
        e ∙ same_env,
        sym (ap (λ (x : BlockEnv). provider.spawn_backend (number x.number) x) same_env)
            ∙ spawned_pinned env' f' spawned
            ∙ ap (λ (p : F × BlockEnv). ok p.0) same,
      )

  -- If the upstream gives the block that it is asked for by its number: a fork at a block has a
  -- backend that is pinned to that very block, and comes with the block env of that block's header.
  pub fork_at_pinned :
      (n : ℕ) (f : F) (env : BlockEnv)
      → GivesNumber
      → fork_at n ≡ ok (f, env)
      → (header : Header) × (provider.get_block (number n) ≡ ok (some header))
        × (env_of_header header ≡ env)
        × (env.number ≡ n)
        × (provider.spawn_backend (number n) env ≡ ok f)
  unfolding fork_at env_of_header
  fork_at_pinned n f env gives h =
      let (header, got, made, spawned) = fork_impl_pinned (number n) f env h in
      let e : env.number ≡ n = sym (ap (λ (x : BlockEnv). x.number) made) ∙ gives n header got in
      (
        header,
        got,
        made,
        e,
        sym (ap (λ (k : ℕ). provider.spawn_backend (number k) env) e) ∙ spawned,
      )
