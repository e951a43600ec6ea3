-- ===== src/Lease/Transition/Laws.antt =====
-- What mx_lease_transition keeps, and what its undo restores.
use mxdriver.Common.{
  ◌≡◌, refl, true, ◌&&◌, none, some, Ret, arith, Option-cases, Bool-cases, inl, inr, sym, subst,
}
use mathlib.Core.Option.{some-injective}
use mxdriver.Lease.Sm.{Sm, Holder, is_publisher}
use mxdriver.Lease.Sm.Tally.{Tally}
use mxdriver.Lease.Sm.Account.{Keeps}
use mxdriver.Lease.Sm.Moves.{transition-Keeps}
use mxdriver.Lease.Sm.Results.{Framed, transition_frame}
use mxdriver.Lease.Device.{
  DeviceLease, FileCtx, same_holder, same_state, eq_of_same_holder, eq_of_same_state,
}
use mxdriver.Lease.Acquire.Laws.{IsAnchored, IsSound}
use mxdriver.Lease.Transition.{
  TransitionRequest, TransitionPending, transition_commit, transition_locked, transition_undo,
  names_lease,
}

-- The state machine and a publisher determine what the others add up to.
others_determined :
    (sm : Sm) (h : Holder) (r s : Tally)
    → is_publisher h.profile ≡ true
    → Keeps sm h r
    → Keeps sm h s
    → r ≡ s
others_determined sm h r s p k l = ground arith

-- What a call of mx_lease_transition knows of the states that it keeps in its locals.
pub record Undoable (p : TransitionPending) : Type 0 where
  pub rest : Tally
  pub kept_before : Keeps p.old_state p.old_holder rest
  pub kept_after : Keeps p.new_state p.new_holder rest
  pub publishes : is_publisher p.new_holder.profile ≡ true
  pub same_family : p.old_state.family ≡ p.new_state.family
  pub same_holders : p.old_state.family_holders ≡ p.new_state.family_holders
  pub same_legacy : p.old_state.legacy_holders ≡ p.new_state.legacy_holders

Framed-IsAnchored :
    (lease : DeviceLease) (h : Holder) (t : Ret × Sm × Holder)
    → IsAnchored lease
    → Framed lease.state h t
    → IsAnchored (record lease { state = t.1 })
Framed-IsAnchored lease h t i f = ground arith

commit-IsSound :
    (lease : DeviceLease) (ctx : FileCtx) (t : Ret × Sm × Holder) (r : Tally)
    → IsSound lease ctx r
    → Framed lease.state ctx.lease t
    → Keeps t.1 t.2 r
    → IsSound (transition_commit lease ctx t).lease (transition_commit lease ctx t).ctx r
unfolding transition_commit
commit-IsSound lease ctx (some e, sm, h) r i f k = record {
  keeps = k;
  anchored = Framed-IsAnchored lease ctx.lease (some e, sm, h) i.anchored f;
}
commit-IsSound lease ctx (none, sm, h) r i f k = record {
  keeps = k;
  anchored = Framed-IsAnchored lease ctx.lease (none, sm, h) i.anchored f;
}

commit-Undoable :
    (lease : DeviceLease) (ctx : FileCtx) (t : Ret × Sm × Holder) (r : Tally)
    → Keeps lease.state ctx.lease r
    → Framed lease.state ctx.lease t
    → Keeps t.1 t.2 r
    → (p : TransitionPending) → (transition_commit lease ctx t).published ≡ some p
    → Undoable p
unfolding transition_commit
commit-Undoable lease ctx (some e, sm, h) r k f l p q = absurd (cc q)
commit-Undoable lease ctx (none, sm, h) r k f l p q =
    subst Undoable (some-injective _ _ q) (record {
      rest = r;
      kept_before = k;
      kept_after = l;
      publishes = rw f.same_profile (f.publishes refl);
      same_family = sym f.same_family;
      same_holders = sym f.same_holders;
      same_legacy = sym f.same_legacy;
    })

-- The first locked section of mx_lease_transition keeps the device's lease sound, and what it keeps
-- in its locals can be undone.
pub transition_locked-IsSound :
    (lease : DeviceLease) (ctx : FileCtx) (req : TransitionRequest) (r : Tally)
    → IsSound lease ctx r
    → IsSound (transition_locked lease ctx req).lease (transition_locked lease ctx req).ctx r
unfolding transition_locked
transition_locked-IsSound lease ctx req r i =
    elim (Option-cases
      (names_lease lease req.expected_device_incarnation req.expected_lease_generation)) [
        | inr (x, e) ↦ rw (e, transition_locked) i
        | inl e ↦
            rw (e, transition_locked)
              (commit-IsSound lease ctx _ r i (transition_frame lease.state ctx.lease _ _ _)
                (transition-Keeps lease.state ctx.lease _ _ _ r i.keeps))
      ]

pub transition_locked-Undoable :
    (lease : DeviceLease) (ctx : FileCtx) (req : TransitionRequest) (r : Tally)
    → IsSound lease ctx r
    → (p : TransitionPending) → (transition_locked lease ctx req).published ≡ some p
    → Undoable p
unfolding transition_locked
transition_locked-Undoable lease ctx req r i p q =
    elim (Option-cases
      (names_lease lease req.expected_device_incarnation req.expected_lease_generation)) [
        | inr (x, e) ↦ absurd (cc (rw (e, transition_locked) at q))
        | inl e ↦
            commit-Undoable lease ctx _ r i.keeps (transition_frame lease.state ctx.lease _ _ _)
              (transition-Keeps lease.state ctx.lease _ _ _ r i.keeps) p
              (rw (e, transition_locked) at q)
      ]

restored-IsAnchored :
    (lease : DeviceLease) (sm : Sm)
    → IsAnchored lease
    → sm.family ≡ lease.state.family
    → sm.family_holders ≡ lease.state.family_holders
    → sm.legacy_holders ≡ lease.state.legacy_holders
    → IsAnchored (record lease { state = sm })
restored-IsAnchored lease sm i f h l = ground arith

-- The undo of mx_lease_transition keeps a sound lease sound, whatever happened since its call, if
-- what the call kept can be undone: it was sound before and after the call for one and the same
-- tally of the other descriptors.
pub transition_undo-IsSound :
    (lease : DeviceLease) (ctx : FileCtx) (p : TransitionPending) (r : Tally)
    → Undoable p
    → IsSound lease ctx r
    → IsSound (transition_undo lease ctx p).0 (transition_undo lease ctx p).1 r
unfolding transition_undo
transition_undo-IsSound lease ctx p r u i =
    elim (Bool-cases (same_state lease.state p.new_state && same_holder ctx.lease p.new_holder)) [
      | inr e ↦ rw e i
      | inl e ↦
          let s = eq_of_same_state lease.state p.new_state (ground arith) in
          let h = eq_of_same_holder ctx.lease p.new_holder (ground arith) in
          let k : Keeps p.new_state p.new_holder r = rw (← s, ← h) i.keeps in
          rw e (record {
            keeps =
                rw (others_determined p.new_state p.new_holder r u.rest u.publishes k u.kept_after)
                  u.kept_before;
            anchored =
                restored-IsAnchored lease p.old_state i.anchored (rw s u.same_family)
                  (rw s u.same_holders) (rw s u.same_legacy);
          })
    ]
