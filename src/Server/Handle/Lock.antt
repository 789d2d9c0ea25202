-- ===== src/Server/Handle/Lock.antt =====
-- Who may lock utxos.
use xuperchain.Prelude.{Bool, true, false, ◌≡◌, some, arith, ℤ}
use xuperchain.Go.Text.{Text}
use xuperchain.Pb.{UtxoOutput}
use xuperchain.Server.Handle.{ChainEnv, done, check_select_utxo_sign, locked_hash, select_utxo}

-- Utxos of an address that is no account are locked only for the holder of a key of that address who
-- has signed the chain, the address and the amount.
pub select_utxo_locks_for_owner :
    (env : ChainEnv) (bc_name account : Text) (need : ℤ) (is_exclude : Bool) (pub_key sign : Text)
    (outs : UtxoOutput)
    → env.is_account account ≡ false
    → select_utxo env bc_name account need true is_exclude pub_key sign ≡ done outs
    → (key : Text) × (env.public_key pub_key ≡ some key)
      × (env.verify_ecdsa key sign (locked_hash env bc_name account need) ≡ some true)
      × (env.verify_address account key ≡ true)
unfolding select_utxo check_select_utxo_sign
select_utxo_locks_for_owner env bc_name account need is_exclude pub_key sign outs h e = ground arith
