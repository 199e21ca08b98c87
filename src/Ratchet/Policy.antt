-- ===== src/Ratchet/Policy.antt =====
-- core-crypto/src/crypto/ratchet/policy.rs: the budgets, and which proposals are stale.
-- A `Duration` is a count of nanoseconds.
use kyber_pipe.Base.{
  ℕ, ◌-◌, ◌*◌, ◌/◌, ◌^◌, max, Bool, true, false, ◌&&◌, Option, none, some, List, [], ◌∷◌, is_empty,
  leb, if◌then◌else◌,
}
use kyber_pipe.Ratchet.State.{Clock, RekeyCarrier, IncomingProposal}

abbrev incoming_rekey_ttl_secs : ℕ
incoming_rekey_ttl_secs = 60

abbrev pub seen_set_max : ℕ
seen_set_max = 4096

abbrev pub rekey_retry_ttl_secs : ℕ
rekey_retry_ttl_secs = 15

-- `Duration::from_secs` and `as_secs`.
abbrev pub from_secs : ℕ → ℕ
from_secs s = s * 10 ^ 9

abbrev pub as_secs : ℕ → ℕ
as_secs d = d / 10 ^ 9

-- `Instant::elapsed` and the `saturating_sub` of the wall clock stop at zero, as `-` does.
unfoldable pub carrier_effective_age : Clock → RekeyCarrier → ℕ
carrier_effective_age now c =
    max (now.mono - c.attached_at) (from_secs (now.unix - c.attached_at_unix))

unfoldable carrier_first_attached_effective_age : Clock → RekeyCarrier → ℕ
carrier_first_attached_effective_age now c =
    max (now.mono - c.first_attached_at) (from_secs (now.unix - c.first_attached_at_unix))

abbrev wall_elapsed : ℕ → Option ℕ → ℕ
wall_elapsed now none = 0
wall_elapsed now (some at) = now - at

abbrev mono_elapsed : ℕ → Option ℕ → ℕ
mono_elapsed now none = 0
mono_elapsed now (some at) = as_secs (now - at)

unfoldable pub incoming_proposal_is_stale : Clock → IncomingProposal → Bool
incoming_proposal_is_stale now p =
    leb incoming_rekey_ttl_secs
      (max (wall_elapsed now.unix p.attached_at_unix) (mono_elapsed now.mono p.attached_at_mono))

all_stale : Clock → List RekeyCarrier → Bool
unfolding carrier_first_attached_effective_age
all_stale now [] = true
all_stale now (c ∷ queue) =
    leb (from_secs incoming_rekey_ttl_secs) (carrier_first_attached_effective_age now c)
    && all_stale now queue

unfoldable pub outgoing_proposal_is_stale : Clock → List RekeyCarrier → Bool
unfolding all_stale
outgoing_proposal_is_stale now queue = if is_empty queue then false else all_stale now queue
