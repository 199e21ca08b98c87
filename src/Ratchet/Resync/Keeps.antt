-- ===== src/Ratchet/Resync/Keeps.antt =====
-- A predicate that the three parts of a resynchronisation keep is kept by the whole.
use kyber_pipe.Base.{ℕ}
use kyber_pipe.Error.{ok, err}
use kyber_pipe.Primitives.{Crypto}
use kyber_pipe.Ratchet.State.{Clock, DoubleRatchetState}
use kyber_pipe.Ratchet.Fields.{Outcome}
use kyber_pipe.Ratchet.Resync.{
  evict_incoming, evict_outgoing, advance_to, behind_incoming, behind_outgoing,
  resync_receiving_chain,
}

module _ (c : Crypto) (P : DoubleRatchetState → Type 0) (now : Clock) (target : ℕ) where
  behind_outgoing-keeps :
      ((s : DoubleRatchetState) → P s → P (advance_to c target s).1)
      → (o : Outcome Unit) → P o.1
      → P (behind_outgoing c target o).1
  unfolding behind_outgoing
  behind_outgoing-keeps advances (err e, s) v = v
  behind_outgoing-keeps advances (ok u, s) v = advances s v

  behind_incoming-keeps :
      ((s : DoubleRatchetState) → P s → P (evict_outgoing now s).1)
      → ((s : DoubleRatchetState) → P s → P (advance_to c target s).1)
      → (o : Outcome Unit) → P o.1
      → P (behind_incoming c now target o).1
  unfolding behind_incoming
  behind_incoming-keeps drops advances (err e, s) v = v
  behind_incoming-keeps drops advances (ok u, s) v =
      behind_outgoing-keeps advances (evict_outgoing now s) (drops s v)

  pub resync_receiving_chain-keeps :
      ((s : DoubleRatchetState) → P s → P (evict_incoming now s).1)
      → ((s : DoubleRatchetState) → P s → P (evict_outgoing now s).1)
      → ((s : DoubleRatchetState) → P s → P (advance_to c target s).1)
      → (s : DoubleRatchetState) → P s
      → P (resync_receiving_chain c now target s).1
  unfolding resync_receiving_chain
  resync_receiving_chain-keeps evicts drops advances s v =
      behind_incoming-keeps drops advances (evict_incoming now s) (evicts s v)
