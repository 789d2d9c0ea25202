-- ===== src/Server/Rpc/Accounts/Balance.antt =====
-- What `GetBalance`, `GetFrozenBalance` and `GetBalanceDetail` report of each chain.
use xuperchain.Prelude.{
  Option, none, some, List, [], ◌∷◌, ◌≡◌, refl, ◌⊎◌, map, Pairwise, pairwise_nil, pairwise_cons,
}
use xuperchain.Go.Text.{Text}
use xuperchain.Pb.{XChainError}
use xuperchain.Pb.Query.{TokenDetail, AddressStatus}
use xuperchain.Server.Handle.{StdError, Outcome, done, failed, new_chain_handle}
use xuperchain.Server.Rpc.{Read, Calls, RpcEnv, Answer}
use xuperchain.Server.Rpc.Accounts.{token_detail, balance_at, balances, empty_balances}

module _ (env : RpcEnv) (query : Calls → Text → Text → Outcome Text) (address : Text) where
  -- What the entry for the chain `name` may say
  pub data Reports (name : Text) : TokenDetail → Type 0 where
    known :
        (h : Calls) (chain balance : Text)
        → new_chain_handle (env.chain h name) name ≡ done chain
        → query h chain address ≡ done balance
        → Reports name (record { bcname = name; balance = balance; error = XChainError.success })
    unknown :
        (h : Calls) (chain : Text) (e : StdError)
        → new_chain_handle (env.chain h name) name ≡ done chain
        → query h chain address ≡ failed e
        → Reports name (record { bcname = name; balance = []; error = XChainError.unknow_error })
    no_chain :
        (h : Calls) (e : StdError)
        → new_chain_handle (env.chain h name) name ≡ failed e
        → Reports name
            (record { bcname = name; balance = []; error = XChainError.blockchain_notexist })

  queried :
      (name chain : Text) (h : Calls) (r : Outcome Text)
      → new_chain_handle (env.chain h name) name ≡ done chain
      → query h chain address ≡ r
      → Reports name (token_detail name r)
  queried name chain h (done balance) p q = known _ _ _ p q
  queried name chain h (failed e) p q = unknown _ _ _ p q

  module _ (reading : Text → Read) where
    balance_at-Reports :
        (name : Text) (h : Calls) (r : Outcome Text)
        → new_chain_handle (env.chain h name) name ≡ r
        → Reports name (balance_at env reading query address name r h).0
    balance_at-Reports name h (done chain) p = queried name chain h _ p refl
    balance_at-Reports name h (failed e) p = no_chain _ _ p

    pub balances-Reports :
        (ts : List TokenDetail) (h : Calls)
        → Pairwise Reports
            (map (λ (t : TokenDetail). t.bcname) ts)
            (balances env reading query address ts h).0
    unfolding balances
    balances-Reports [] h = pairwise_nil
    balances-Reports (t ∷ ts) h =
        pairwise_cons (balance_at-Reports t.bcname h _ refl) (balances-Reports ts _)

-- What a request for balances is answered
abbrev pub IsBalances :
    RpcEnv
    → (Calls → Text → Text → Outcome Text)
    → Option AddressStatus
    → Answer AddressStatus
    → Type 0
IsBalances env query req answer =
    ((answer.error ≡ some StdError.err_parameter) × (answer.response ≡ empty_balances))
    ⊎ ((status : AddressStatus) × (req ≡ some status)
        × (answer.error ≡ none)
        × (answer.response.address ≡ status.address)
        × Pairwise (Reports env query status.address)
            (map (λ (t : TokenDetail). t.bcname) status.bcs) answer.response.bcs)
