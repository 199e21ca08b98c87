-- ===== src/RatchetFfi/Registry/Refinement.antt =====
-- The table of sessions implements a function from identities to sessions, each call a change at
-- one identity that looks at this identity only.
use kyber_pipe.Base.{
  ◌≡◌, refl, ap, ◌∙◌, false, Option, none, some, List, [], ◌∷◌, if◌then◌else◌, arith, bytes_eq,
  bytes_eq_sound, saturating_add64, inl, inr, Bool-cases, Option-cases,
}
use mathlib.Core.Path.{fun_ext}
use mathlib.Core.Option
use kyber_pipe.Ratchet.State.{Clock, DoubleRatchetState}
use kyber_pipe.Ratchet.Fields.{Outcome}
use kyber_pipe.Ratchet.Snapshot.{RatchetSnapshot, from_snapshot}
use kyber_pipe.RatchetFfi.Peers.{
  PeerIdentity, peer_get, peer_insert, update, peer_get-peer_insert, peer_get-peer_remove,
}
use kyber_pipe.RatchetFfi.Registry.{
  Registry, Slot, Reply, add_session, recovered, with_ratchet_session, use_slot,
  ratchet_remove_session, ratchet_bump_pairing_epoch, bump_slot, ratchet_clear_all_sessions,
}
use kyber_pipe.RatchetFfi.Registry.Watermark.{of_snapshot}
use kyber_pipe.RatchetFfi.Registry.Import.{
  import_snapshot, import_watermark_guard, import_insert, refused_for,
}

-- The abstract table.
abbrev pub Sessions : Type 0
Sessions = PeerIdentity → Option Slot

abbrev pub view : Registry → Sessions
view r = λ p. peer_get p r.sessions

-- The calls that change the table, with what they take from outside.
pub data Call : Type 1 where
  opens : PeerIdentity → DoubleRatchetState → Call
  removes : PeerIdentity → Call
  bumps : PeerIdentity → Call
  clears : Call
  runs : {A : Type 0} → PeerIdentity → (DoubleRatchetState → Outcome A) → Call
  imports : Clock → PeerIdentity → RatchetSnapshot → Call

-- A panic of an import leaves the table as it is.
abbrev pub behind_import : Registry → Option (Reply (Unit {0})) → Registry
behind_import r none = r
behind_import r (some (res, r')) = r'

unfoldable pub do_call : Call → Registry → Registry
do_call (opens peer s) r = (add_session peer s (recovered r)).1
do_call (removes peer) r = (ratchet_remove_session peer r).1
do_call (bumps peer) r = (ratchet_bump_pairing_epoch peer r).1
do_call clears r = ratchet_clear_all_sessions r
do_call (runs peer f) r = (with_ratchet_session peer f r).1
do_call (imports now peer snap) r = behind_import r (import_snapshot now peer snap r)

-- The change at the one identity, of what stands there.
abbrev pub sound_slot : DoubleRatchetState → Slot
sound_slot s = record { poisoned = false; session = s }

abbrev pub unless_poisoned : (DoubleRatchetState → DoubleRatchetState) → Slot → Slot
unless_poisoned f slot = if slot.poisoned then slot else record slot { session = f slot.session }

abbrev pub imported : Clock → RatchetSnapshot → Option Slot → Option Slot
imported now snap old =
    if refused_for old (of_snapshot snap)
    then old
    else elim (from_snapshot now snap) [ none ↦ old | some s ↦ some (sound_slot s) ]

abbrev pub or_new : Option Slot → DoubleRatchetState → Option Slot
or_new none s = some (sound_slot s)
or_new (some old) s = some old

-- The specification of a call.
abbrev pub spec : Call → Sessions → Sessions
spec (opens peer s) m = update m peer (or_new (m peer) s)
spec (removes peer) m = update m peer none
spec (bumps peer) m = update m peer (
    Option.map
      (unless_poisoned (λ s. record s { pairing_epoch = saturating_add64 s.pairing_epoch 1 }))
      (m peer))
spec clears m = λ p. none
spec (runs peer f) m = update m peer (Option.map (unless_poisoned (λ s. (f s).1)) (m peer))
spec (imports now peer snap) m = update m peer (imported now snap (m peer))

-- A change to what stands there already is none.
update_same :
    (peer : PeerIdentity) (r : Registry) {o : Option Slot}
    → peer_get peer r.sessions ≡ o
    → view r ≡ update (view r) peer o
update_same peer r e = fun_ext λ q. elim (Bool-cases (bytes_eq peer q)) [
  | inl same ↦ rw same (rw (← bytes_eq_sound peer q same) e)
  | inr other ↦ rw other refl
]

view_insert :
    (peer : PeerIdentity) (v : Slot) (r : Registry)
    → view (record r { sessions = peer_insert peer v r.sessions }) ≡ update (view r) peer (some v)
view_insert peer v r = fun_ext λ q. peer_get-peer_insert peer q v r.sessions

recovered_sound : (r : Registry) → r.poisoned ≡ false → recovered r ≡ r
unfolding recovered
recovered_sound r sound = simp sound refl

opens_refines :
    (peer : PeerIdentity) (s : DoubleRatchetState) (r : Registry) (o : Option Slot)
    → peer_get peer r.sessions ≡ o
    → view (add_session peer s r).1 ≡ update (view r) peer (or_new o s)
unfolding add_session
opens_refines peer s r none e = rw e (view_insert peer (sound_slot s) r)
opens_refines peer s r (some old) e = rw e (update_same peer r e)

runs_refines :
    {A : Type 0} (peer : PeerIdentity) (f : DoubleRatchetState → Outcome A) (r : Registry)
    (o : Option Slot)
    → peer_get peer r.sessions ≡ o
    → view (use_slot peer f o r).1
      ≡ update (view r) peer (Option.map (unless_poisoned (λ s. (f s).1)) o)
unfolding use_slot
runs_refines peer f r none e = update_same peer r e
runs_refines peer f r (some slot) e = elim (Bool-cases slot.poisoned) [
  | inl bad ↦ simp bad (update_same peer r e)
  | inr good ↦ simp good (view_insert peer (sound_slot (f slot.session).1) r)
]

bumps_refines :
    (peer : PeerIdentity) (r : Registry) (o : Option Slot)
    → peer_get peer r.sessions ≡ o
    → view (bump_slot peer o r).1
      ≡ update (view r) peer (
          Option.map
            (unless_poisoned (λ s. record s { pairing_epoch = saturating_add64 s.pairing_epoch 1 }))
            o)
unfolding bump_slot
bumps_refines peer r none e = update_same peer r e
bumps_refines peer r (some slot) e = elim (Bool-cases slot.poisoned) [
  | inl bad ↦ simp bad (update_same peer r e)
  | inr good ↦ simp good (view_insert peer _ r)
]

imports_refines :
    (now : Clock) (peer : PeerIdentity) (snap : RatchetSnapshot) (r : Registry)
    → view (behind_import r (import_snapshot now peer snap r))
      ≡ update (view r) peer (imported now snap (peer_get peer r.sessions))
unfolding import_snapshot import_watermark_guard import_insert
imports_refines now peer snap r =
    elim (Bool-cases (refused_for (peer_get peer r.sessions) (of_snapshot snap))) [
      | inl refused ↦ rw refused (update_same peer r refl)
      | inr passed ↦ elim (Option-cases (from_snapshot now snap)) [
        | inl panic ↦ rw (passed, panic) (update_same peer r refl)
        | inr (t, restored) ↦ rw (passed, restored) (view_insert peer (sound_slot t) r)
      ]
    ]

-- A table whose lock is not poisoned, seen as a function from peers to sessions: every call, a
-- session's opening, removal, epoch bump, use and import and the clearing of the table, changes this
-- function at its own peer only, to what the specification says of the session that stood there; a
-- session whose own lock is poisoned is replaced by an import and removed, and otherwise untouched.
pub do_call_refines :
    (call : Call) (r : Registry) → r.poisoned ≡ false → view (do_call call r) ≡ spec call (view r)
unfolding do_call with_ratchet_session ratchet_remove_session ratchet_bump_pairing_epoch
    ratchet_clear_all_sessions peer_get
do_call_refines (opens peer s) r sound =
    ap (λ x. view (add_session peer s x).1) (recovered_sound r sound)
    ∙ opens_refines peer s r (peer_get peer r.sessions) refl
do_call_refines (removes peer) r sound = fun_ext λ q. peer_get-peer_remove peer q r.sessions
do_call_refines (bumps peer) r sound = bumps_refines peer r (peer_get peer r.sessions) refl
do_call_refines clears r sound = refl
do_call_refines (runs peer f) r sound = runs_refines peer f r (peer_get peer r.sessions) refl
do_call_refines (imports now peer snap) r sound = imports_refines now peer snap r

do_call_sound : (call : Call) (r : Registry) → (do_call call r).poisoned ≡ r.poisoned
unfolding do_call add_session recovered with_ratchet_session use_slot ratchet_remove_session
    ratchet_bump_pairing_epoch bump_slot ratchet_clear_all_sessions import_snapshot import_insert
do_call_sound (opens peer s) r = ground arith
do_call_sound (removes peer) r = refl
do_call_sound (bumps peer) r = ground arith
do_call_sound clears r = refl
do_call_sound (runs peer f) r = ground arith
do_call_sound (imports now peer snap) r = ground arith

-- Calls one after the other, on the table and on the specification.
unfoldable pub run : List Call → Registry → Registry
run [] r = r
run (call ∷ calls) r = run calls (do_call call r)

abbrev pub run_spec : List Call → Sessions → Sessions
run_spec [] m = m
run_spec (call ∷ calls) m = run_spec calls (spec call m)

-- Any sequence of openings (behind the checks of their keys), removals, epoch bumps, uses, imports
-- and clearings, of any peers in any order, on a table whose lock is not poisoned, gives the
-- function from peers to sessions that the specification gives: each call has changed its own peer
-- only, by what stood there.
pub run_refines :
    (calls : List Call) (r : Registry)
    → r.poisoned ≡ false
    → view (run calls r) ≡ run_spec calls (view r)
unfolding run
run_refines [] r sound = refl
run_refines (call ∷ calls) r sound =
    run_refines calls (do_call call r) (do_call_sound call r ∙ sound)
    ∙ ap (run_spec calls) (do_call_refines call r sound)
